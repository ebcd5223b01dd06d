-- ===== src/ProtoCap/Roster/Chain.antt =====
-- `verify_chain` of bebop2/proto-cap/src/roster.rs, and an accepted chain stated without the loop.
use open_bebop.Prelude.{
  ℕ, ◌<◌, ◌≡◌, refl, sym, ◌↔◌, Bool, true, false, not, Option, none, some, List, [], ◌∷◌, Result,
  length, ltb→lt, lt→ltb, ok, err, guard, ◌>>◌, >>-eq-ok_iff, eq_of_≟, arith, Elem, inl, inr,
  contains, retain, ◌≟◌, Bool-cases, if◌then◌else◌, ne_of_≟, ≟_of_ne, subst,
}
use open_bebop.Prelude.Bytes.{Bytes, bytes_eq}
use open_bebop.Crypto.{Crypto}
use open_bebop.ProtoCap.Error.{unknown_issuer, subject_mismatch, scope_violation, expired}
use open_bebop.ProtoCap.Scope.{Scope, grants_subset}
use open_bebop.ProtoCap.Scope.Laws.{SubGrants, grants_subset_iff}
use open_bebop.ProtoCap.Capability.{Capability, is_fresh}
use open_bebop.ProtoCap.Roster.{
  Delegation, AnchorRoster, canonical_bytes, verify_signature, in_roster, check_link, walk, tail_of,
  verify_chain, continues, narrows, remove,
}

five_checks :
    {E : Type 0} (b₁ b₂ b₃ b₄ : Bool) (m : Result E (Unit {0})) (e₁ e₂ e₃ e₄ : E)
    → ((guard b₁ e₁ >> (m >> (guard b₂ e₂ >> (guard b₃ e₃ >> guard b₄ e₄)))) ≡ ok tt)
      ↔ ((b₁ ≡ true) × (m ≡ ok tt) × (b₂ ≡ true) × (b₃ ≡ true) × (b₄ ≡ true))
five_checks b₁ b₂ b₃ b₄ (ok u) e₁ e₂ e₃ e₄ = (λ h. ground arith, λ h. ground arith)
five_checks b₁ b₂ b₃ b₄ (err e) e₁ e₂ e₃ e₄ = (λ h. ground arith, λ h. ground arith)

module _ (c : Crypto) (now : ℕ) where
  -- One link taken alone: not expired, signed by its issuer, effect within scope.
  pub record IsLink (d : Delegation) : Type 0 where
    pub unexpired : now < d.expiry
    pub sig_width : length d.signature ≡ 64
    pub signed : c.ed_verify d.issued_by (canonical_bytes d) d.signature ≡ true
    pub effect_within : SubGrants d.effect.grants d.scope.grants

  -- Each further link is issued by the subject before it, and narrows its scope.
  abbrev pub IsChain : Delegation → List Delegation → Type 0
  IsChain d [] = IsLink d
  IsChain d (e ∷ es) =
      IsLink d × (e.issued_by ≡ d.subject) × SubGrants e.scope.grants d.scope.grants × IsChain e es

  pub record IsAuthorized (roster : AnchorRoster) (root : Delegation) (links : List Delegation)
      (cap : Capability) : Type 0 where
    pub anchored : in_roster roster root.issued_by ≡ true
    pub chain : IsChain root links
    pub subject : (tail_of root links).subject ≡ cap.subject_key
    pub within : SubGrants cap.scope.grants (tail_of root links).scope.grants
    pub fresh : now < cap.expiry

  check_link_tests :
      (prev : Option Bytes) (parent : Option Scope) (d : Delegation)
      → (check_link c now prev parent d ≡ ok tt) ↔ (
          (now < d.expiry)
          × (length d.signature ≡ 64)
          × (c.ed_verify d.issued_by (canonical_bytes d) d.signature ≡ true)
          × (grants_subset d.effect.grants d.scope.grants ≡ true)
          × (continues prev d ≡ true)
          × (narrows parent d ≡ true))
  unfolding check_link verify_signature
  check_link_tests prev parent d = (λ h. ground arith, λ h. ground arith)

  check_link_iff :
      (prev : Option Bytes) (parent : Option Scope) (d : Delegation)
      → (check_link c now prev parent d ≡ ok tt)
        ↔ (IsLink d × (continues prev d ≡ true) × (narrows parent d ≡ true))
  check_link_iff prev parent d = (to, from)
    where
      to :
          check_link c now prev parent d ≡ ok tt
          → IsLink d × (continues prev d ≡ true) × (narrows parent d ≡ true)
      to h =
          let t = (check_link_tests prev parent d).0 h in
          (
            record {
              unexpired = t.0;
              sig_width = t.1;
              signed = t.2;
              effect_within = (grants_subset_iff d.effect.grants d.scope.grants).0 t.3;
            },
            t.4,
            t.5,
          )

      from :
          IsLink d × (continues prev d ≡ true) × (narrows parent d ≡ true)
          → check_link c now prev parent d ≡ ok tt
      from (l, k, n) = (check_link_tests prev parent d).1 (
        l.unexpired,
        l.sig_width,
        l.signed,
        (grants_subset_iff d.effect.grants d.scope.grants).1 l.effect_within,
        k,
        n,
      )

  -- The loop from a link whose entry conditions hold.
  walk→IsChain :
      (prev : Option Bytes) (parent : Option Scope) (d : Delegation) (es : List Delegation)
      → walk c now prev parent (d ∷ es) ≡ ok tt
      → IsChain d es × (continues prev d ≡ true) × (narrows parent d ≡ true)
  unfolding walk continues narrows
  walk→IsChain prev parent d [] h =
      (check_link_iff prev parent d).0 ((>>-eq-ok_iff (check_link c now prev parent d) _ tt).0 h).0
  walk→IsChain prev parent d (e ∷ es) h =
      let (here, rest) = (>>-eq-ok_iff (check_link c now prev parent d) _ tt).0 h in
      let (link, k, n) = (check_link_iff prev parent d).0 here in
      let (chain, k', n') = walk→IsChain (some d.subject) (some d.scope) e es rest in
      ((link, continues→eq k', narrows→SubGrants n', chain), k, n)
    where
      continues→eq : continues (some d.subject) e ≡ true → e.issued_by ≡ d.subject
      continues→eq k = eq_of_≟ e.issued_by d.subject k

      narrows→SubGrants : narrows (some d.scope) e ≡ true → SubGrants e.scope.grants d.scope.grants
      narrows→SubGrants n = (grants_subset_iff e.scope.grants d.scope.grants).0 n

  IsChain→walk :
      (prev : Option Bytes) (parent : Option Scope) (d : Delegation) (es : List Delegation)
      → IsChain d es
      → continues prev d ≡ true
      → narrows parent d ≡ true
      → walk c now prev parent (d ∷ es) ≡ ok tt
  unfolding walk continues narrows
  IsChain→walk prev parent d [] link k n =
      (>>-eq-ok_iff (check_link c now prev parent d) _ tt).1
        ((check_link_iff prev parent d).1 (link, k, n), refl)
  IsChain→walk prev parent d (e ∷ es) (link, same, narrow, chain) k n =
      (>>-eq-ok_iff (check_link c now prev parent d) _ tt).1 (
        (check_link_iff prev parent d).1 (link, k, n),
        IsChain→walk (some d.subject) (some d.scope) e es chain
            ((bytes_eq.beq_iff e.issued_by d.subject).1 same)
            ((grants_subset_iff e.scope.grants d.scope.grants).1 narrow),
      )

  -- `verify_chain` accepts a chain exactly when its root is enrolled, its links are unexpired,
  -- signed and narrow one another from subject to issuer, and its tail covers the capability.
  pub verify_chain_iff :
      (roster : AnchorRoster) (root : Delegation) (links : List Delegation) (cap : Capability)
      → (verify_chain c roster (root ∷ links) cap now ≡ ok tt) ↔ IsAuthorized roster root links cap
  unfolding verify_chain continues narrows
  verify_chain_iff roster root links cap =
      let last = tail_of root links in
      let tests =
        five_checks (in_roster roster root.issued_by) (last.subject ≟ cap.subject_key)
          (grants_subset cap.scope.grants last.scope.grants) (is_fresh cap now)
          (walk c now none none (root ∷ links)) unknown_issuer subject_mismatch scope_violation
          expired in
      let within = grants_subset_iff cap.scope.grants last.scope.grants in
      let subject = bytes_eq.beq_iff last.subject cap.subject_key in
      (
        λ h.
            let t = tests.0 h in
            record {
              anchored = t.0;
              chain = (walk→IsChain none none root links t.1).0;
              subject = subject.0 t.2;
              within = within.0 t.3;
              fresh = ltb→lt now cap.expiry t.4;
            },
        λ a. tests.1 (
          a.anchored,
          IsChain→walk none none root links a.chain refl refl,
          subject.1 a.subject,
          within.1 a.within,
          lt→ltb now cap.expiry a.fresh,
        ),
      )

  -- What the tail of a chain may do, every link above it may do.
  IsChain-attenuates :
      (d : Delegation) (es : List Delegation) (link : Delegation)
      → IsChain d es
      → Elem link (d ∷ es)
      → SubGrants (tail_of d es).scope.grants link.scope.grants
  unfolding tail_of
  IsChain-attenuates d [] link h (inl e) = λ g m. rw e m
  IsChain-attenuates d [] link h (inr m) = absurd m
  IsChain-attenuates d (x ∷ es) link (l, same, narrow, chain) (inl e) =
      λ g m. rw e (narrow g (IsChain-attenuates x es x chain (inl refl) g m))
  IsChain-attenuates d (x ∷ es) link (l, same, narrow, chain) (inr m) =
      IsChain-attenuates x es link chain m

  IsChain-unexpired :
      (d : Delegation) (es : List Delegation) (link : Delegation)
      → IsChain d es
      → Elem link (d ∷ es)
      → IsLink link
  IsChain-unexpired d [] link h (inl e) = subst IsLink (sym e) h
  IsChain-unexpired d [] link h (inr m) = absurd m
  IsChain-unexpired d (x ∷ es) link (l, same, narrow, chain) (inl e) = subst IsLink (sym e) l
  IsChain-unexpired d (x ∷ es) link (l, same, narrow, chain) (inr m) =
      IsChain-unexpired x es link chain m

  -- No link of an accepted chain is expired or unsigned, and none grants less than the capability
  -- asks for.
  pub verify_chain-attenuates :
      (roster : AnchorRoster) (chain : List Delegation) (cap : Capability) (link : Delegation)
      → verify_chain c roster chain cap now ≡ ok tt
      → Elem link chain
      → IsLink link × SubGrants cap.scope.grants link.scope.grants
  verify_chain-attenuates roster [] cap link h m = absurd m
  verify_chain-attenuates roster (root ∷ links) cap link h m =
      let a = (verify_chain_iff roster root links cap).0 h in
      (
        IsChain-unexpired root links link a.chain m,
        λ g asked. IsChain-attenuates root links link a.chain m g (a.within g asked),
      )

contains-retain_ne :
    (key : Bytes) (xs : List Bytes) → contains (retain (λ a. not (a ≟ key)) xs) key ≡ false
unfolding contains
contains-retain_ne key [] = refl
contains-retain_ne key (x ∷ xs) = elim (Bool-cases (x ≟ key)) [
  | inl t ↦ rw (t, if◌then◌else◌) (contains-retain_ne key xs)
  | inr f ↦
      rw (f, if◌then◌else◌)
        (rw (≟_of_ne key x (λ e. ne_of_≟ x key f (sym e))) (contains-retain_ne key xs))
]

-- Dropping an anchor refuses every chain that is rooted in it.
pub verify_chain-remove :
    (c : Crypto) (roster : AnchorRoster) (root : Delegation) (links : List Delegation)
    (cap : Capability) (now : ℕ)
    → verify_chain c (remove root.issued_by roster) (root ∷ links) cap now ≡ err unknown_issuer
unfolding verify_chain in_roster remove
verify_chain-remove c roster root links cap now =
    rw (contains-retain_ne root.issued_by roster.anchors)
