-- ===== src/ProtoCap/Scope/Laws.antt =====
-- The discriminants, the encoding and the subset test of bebop2/proto-cap/src/scope.rs.
use open_bebop.Prelude.{
  ℕ, ◌+◌, ◌*◌, ◌%◌, ◌^◌, ◌≡◌, refl, sym, ◌∙◌, true, some, List, [], ◌∷◌, length, arith, ◌↔◌, Elem,
  contains, contains→Elem, Elem→contains, &&_iff, inl, inr, append-injective, head-injective,
  tail-injective, length-append, pair_eq,
}
use open_bebop.Prelude.Bytes.{le_bytes, length-le_bytes}
use open_bebop.ProtoCap.Scope.{
  Resource, Action, Grant, Scope, route, send, resource_discriminant, resource_from_discriminant,
  action_discriminant, action_from_discriminant, grant_bytes, to_tlv_bytes, grants_subset,
  is_subset_of, resource_eq, action_eq,
}

pub resource_from_discriminant_lem :
    (r : Resource) → resource_from_discriminant (resource_discriminant r) ≡ some r
unfolding resource_from_discriminant resource_discriminant
resource_from_discriminant_lem route = refl
resource_from_discriminant_lem _ = refl

pub action_from_discriminant_lem :
    (a : Action) → action_from_discriminant (action_discriminant a) ≡ some a
unfolding action_from_discriminant action_discriminant
action_from_discriminant_lem send = refl
action_from_discriminant_lem _ = refl

resource_discriminant_back :
    (b : ℕ) (r : Resource) → resource_from_discriminant b ≡ some r → resource_discriminant r ≡ b
unfolding resource_from_discriminant resource_discriminant
resource_discriminant_back b r h = ground arith

action_discriminant_back :
    (b : ℕ) (a : Action) → action_from_discriminant b ≡ some a → action_discriminant a ≡ b
unfolding action_from_discriminant action_discriminant
action_discriminant_back b a h = ground arith

-- A resource byte is accepted exactly when it is the discriminant of the resource that it
-- decodes to.
pub resource_from_discriminant_iff :
    (b : ℕ) (r : Resource) → (resource_from_discriminant b ≡ some r) ↔ (resource_discriminant r ≡ b)
resource_from_discriminant_iff b r =
    (resource_discriminant_back b r, λ e. rw (← e) (resource_from_discriminant_lem r))

-- An action byte is accepted exactly when it is the discriminant of the action that it decodes
-- to.
pub action_from_discriminant_iff :
    (b : ℕ) (a : Action) → (action_from_discriminant b ≡ some a) ↔ (action_discriminant a ≡ b)
action_from_discriminant_iff b a =
    (action_discriminant_back b a, λ e. rw (← e) (action_from_discriminant_lem a))

resource_discriminant-injective :
    (r t : Resource) → resource_discriminant r ≡ resource_discriminant t → r ≡ t
resource_discriminant-injective r t e =
    cc (resource_from_discriminant_lem r, resource_from_discriminant_lem t, e)

action_discriminant-injective :
    (a b : Action) → action_discriminant a ≡ action_discriminant b → a ≡ b
action_discriminant-injective a b e =
    cc (action_from_discriminant_lem a, action_from_discriminant_lem b, e)

grant_bytes-injective : (gs hs : List Grant) → grant_bytes gs ≡ grant_bytes hs → gs ≡ hs
unfolding grant_bytes
grant_bytes-injective [] [] e = refl
grant_bytes-injective [] (h ∷ hs) e = cc
grant_bytes-injective (g ∷ gs) [] e = cc
grant_bytes-injective ((r, a) ∷ gs) ((t, b) ∷ hs) e =
    let rs = resource_discriminant-injective r t (head-injective e) in
    let acts = action_discriminant-injective a b (head-injective (tail-injective e)) in
    let rest = grant_bytes-injective gs hs (tail-injective (tail-injective e)) in
    λ k. (rs k, acts k) ∷ rest k

length-grant_bytes : (gs : List Grant) → length (grant_bytes gs) ≡ 2 * length gs
unfolding grant_bytes
length-grant_bytes [] = refl
length-grant_bytes (g ∷ gs) = omega (arith, length-grant_bytes gs)

pub length-to_tlv_bytes : (s : Scope) → length (to_tlv_bytes s) ≡ 2 + 2 * length s.grants
unfolding to_tlv_bytes
length-to_tlv_bytes s = omega (
  arith,
  length-append (le_bytes 2 (length s.grants % 2 ^ 16)) (grant_bytes s.grants),
  length-le_bytes 2 (length s.grants % 2 ^ 16),
  length-grant_bytes s.grants,
)

-- Two scopes with one encoding are one scope, grants in order, also where the `u16` count wraps.
pub to_tlv_bytes-injective : (s t : Scope) → to_tlv_bytes s ≡ to_tlv_bytes t → s ≡ t
unfolding to_tlv_bytes
to_tlv_bytes-injective s t e =
    let gs =
      grant_bytes-injective s.grants t.grants
        (append-injective (le_bytes 2 _) (le_bytes 2 _) _ _
          (length-le_bytes 2 _ ∙ sym (length-le_bytes 2 _)) e).1 in
    λ k. record { grants = gs k }

-- Every grant of the one is a grant of the other.
abbrev pub SubGrants : List Grant → List Grant → Type 0
SubGrants gs hs = (g : Grant) → Elem g gs → Elem g hs

grants_subset→SubGrants : (gs hs : List Grant) → grants_subset gs hs ≡ true → SubGrants gs hs
unfolding grants_subset
grants_subset→SubGrants [] hs h g m = absurd m
grants_subset→SubGrants (x ∷ gs) hs h g (inl e) = rw e (contains→Elem hs x ((&&_iff _ _).0 h).0)
grants_subset→SubGrants (x ∷ gs) hs h g (inr m) =
    grants_subset→SubGrants gs hs ((&&_iff (contains hs x) _).0 h).1 g m

SubGrants→grants_subset : (gs hs : List Grant) → SubGrants gs hs → grants_subset gs hs ≡ true
unfolding grants_subset
SubGrants→grants_subset [] hs h = refl
SubGrants→grants_subset (x ∷ gs) hs h =
    (&&_iff _ _).1
      (Elem→contains hs x (h x (inl refl)), SubGrants→grants_subset gs hs (λ g m. h g (inr m)))

pub grants_subset_iff : (gs hs : List Grant) → (grants_subset gs hs ≡ true) ↔ SubGrants gs hs
grants_subset_iff gs hs = (grants_subset→SubGrants gs hs, SubGrants→grants_subset gs hs)

-- The subset test decides inclusion of the grants, whatever their order and repetitions.
pub is_subset_of_iff : (s t : Scope) → (is_subset_of s t ≡ true) ↔ SubGrants s.grants t.grants
unfolding is_subset_of
is_subset_of_iff s t = grants_subset_iff s.grants t.grants
