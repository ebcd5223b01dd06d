-- ===== src/ProtoCap/Roster.antt =====
-- bebop2/proto-cap/src/roster.rs: trust anchors, delegation links, and the check of a chain.
pub mod Chain
use open_bebop.Prelude.{
  ℕ, ◌≡◌, Bool, true, not, Option, none, some, List, [], ◌∷◌, length, retain, leb, ◌==◌, ◌≟◌,
  Result, ok, err, guard, is_ok, ◌>>=◌, ◌>>◌, contains, insert, if◌then◌else◌,
}
use open_bebop.Prelude.Bytes.{Bytes, le_bytes, bytes_eq}
use open_bebop.Crypto.{Crypto}
use open_bebop.ProtoCap.Error.{
  CapResult, expired, bad_length, unknown_issuer, chain_broken, scope_violation, subject_mismatch,
  bad_signature,
}
use open_bebop.ProtoCap.Scope.{Scope, Grant, Resource, Action, to_tlv_bytes, grants_subset}
use open_bebop.ProtoCap.Scope
use open_bebop.ProtoCap.Tlv.{tlv_signing_input, domain_delegation}
use open_bebop.ProtoCap.Capability.{Capability, is_fresh}

pub record Effect : Type 0 where
  pub grants : List Grant

unfoldable pub effect_single : Resource → Action → Effect
effect_single r a = record { grants = (r, a) ∷ [] }

unfoldable pub effect_is_subset_of : Effect → Scope → Bool
unfolding grants_subset
effect_is_subset_of e s = grants_subset e.grants s.grants

pub record Delegation : Type 0 where
  pub issued_by : Bytes
  pub subject : Bytes
  pub scope : Scope
  pub effect : Effect
  pub expiry : ℕ
  pub nonce : Bytes
  pub signature : Bytes

-- The source wraps this in a `CapResult` that is always `Ok`.
unfoldable pub canonical_bytes : Delegation → Bytes
canonical_bytes d = tlv_signing_input domain_delegation 0x01 0x01 (
    (0x01 ∷ [], d.issued_by)
    ∷ (0x02 ∷ [], d.subject)
    ∷ (0x03 ∷ [], to_tlv_bytes d.scope)
    ∷ (0x04 ∷ [], to_tlv_bytes (Scope.new d.effect.grants))
    ∷ (0x05 ∷ [], le_bytes 8 d.expiry)
    ∷ (0x06 ∷ [], d.nonce)
    ∷ [])

unfoldable pub sign : Crypto → Bytes → Bytes → Scope → Effect → ℕ → Bytes → Bytes → Delegation
sign c issued_by subject scope effect expiry nonce seed =
    let d : Delegation = record {
      issued_by = issued_by;
      subject = subject;
      scope = scope;
      effect = effect;
      expiry = expiry;
      nonce = nonce;
      signature = [];
    } in
    record d { signature = c.ed_sign seed (canonical_bytes d) }

-- `signature.try_into::<[u8; 64]>()` fails on any other length.
unfoldable pub verify_signature : Crypto → Delegation → CapResult (Unit {0})
verify_signature c d = do
  guard (length d.signature == 64) bad_length
  guard (c.ed_verify d.issued_by (canonical_bytes d) d.signature) bad_signature

-- The enrolled roots; a `HashSet` whose order nothing reads.
pub record AnchorRoster : Type 0 where
  pub anchors : List Bytes

unfoldable pub empty_roster : AnchorRoster
empty_roster = record { anchors = [] }

unfoldable pub enroll : Bytes → AnchorRoster → AnchorRoster
unfolding insert
enroll key r = record { anchors = insert key r.anchors }

unfoldable pub in_roster : AnchorRoster → Bytes → Bool
in_roster r key = contains r.anchors key

unfoldable pub remove : Bytes → AnchorRoster → AnchorRoster
remove key r = record { anchors = retain (λ a. not (a ≟ key)) r.anchors }

unfoldable pub subject_in_roster : Capability → AnchorRoster → Bool
unfolding in_roster
subject_in_roster cap r = in_roster r cap.subject_key

-- `if let Some(prev) = prev_subject { if link.issued_by != prev … }`
unfoldable pub continues : Option Bytes → Delegation → Bool
continues none link = true
continues (some prev) link = link.issued_by ≟ prev

-- `if let Some(ps) = parent_scope { if !link.scope.is_subset_of(&ps) … }`
unfoldable pub narrows : Option Scope → Delegation → Bool
unfolding grants_subset
narrows none link = true
narrows (some parent) link = grants_subset link.scope.grants parent.grants

-- The body of the loop over the chain.
unfoldable pub check_link :
    Crypto → ℕ → Option Bytes → Option Scope → Delegation → CapResult (Unit {0})
unfolding continues narrows effect_is_subset_of
check_link c now prev parent link = do
  guard (not (leb link.expiry now)) expired
  verify_signature c link
  guard (effect_is_subset_of link.effect link.scope) scope_violation
  guard (continues prev link) chain_broken
  guard (narrows parent link) scope_violation

unfoldable pub walk :
    Crypto → ℕ → Option Bytes → Option Scope → List Delegation → CapResult (Unit {0})
walk c now prev parent [] = ok tt
walk c now prev parent (link ∷ links) = do
  check_link c now prev parent link
  walk c now (some link.subject) (some link.scope) links

-- `chain.last()` of a chain that is not empty.
unfoldable pub tail_of : Delegation → List Delegation → Delegation
tail_of d [] = d
tail_of d (e ∷ es) = tail_of e es

unfoldable pub verify_chain :
    Crypto → AnchorRoster → List Delegation → Capability → ℕ → CapResult (Unit {0})
unfolding in_roster walk tail_of effect_is_subset_of is_fresh
verify_chain c roster [] cap now = err unknown_issuer
verify_chain c roster (root ∷ links) cap now = do
  guard (in_roster roster root.issued_by) unknown_issuer
  walk c now none none (root ∷ links)
  guard ((tail_of root links).subject ≟ cap.subject_key) subject_mismatch
  guard (effect_is_subset_of (record { grants = cap.scope.grants }) (tail_of root links).scope)
      scope_violation
  guard (is_fresh cap now) expired
