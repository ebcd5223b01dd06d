-- ===== src/ProtoCap/Redline.antt =====
-- bebop2/proto-cap/src/redline.rs: the deny-by-default gate over red-line grants.
pub mod Laws
use open_bebop.Prelude.{
  ℕ, Bool, true, false, Option, none, some, List, [], ◌∷◌, any, retain, Result, ok, err, contains,
  pair_eq, if◌then◌else◌,
}
use open_bebop.ProtoCap.Scope.{
  Scope, Grant, Resource, Action, resource_eq, action_eq, ledger, order, claim, auth, secret,
  migration, settlement_recorded, append, create_order,
}

pub data RedLineCategory : Type 0 where
  money secrets migrations auth_category : RedLineCategory

pub data RedLinePolicy : Type 0 where
  deny_by_default : RedLinePolicy
  allow_list : List Scope → RedLinePolicy

unfoldable pub is_red_line : Resource → Action → Option RedLineCategory
is_red_line ledger settlement_recorded = some money
is_red_line ledger append = some money
is_red_line order create_order = some money
is_red_line claim _ = some money
is_red_line auth _ = some auth_category
is_red_line secret _ = some secrets
is_red_line migration _ = some migrations
is_red_line _ _ = none

abbrev pub is_some {ℓ} : {A : Type ℓ} → Option A → Bool
is_some none = false
is_some (some a) = true

unfoldable pub red_pairs : Scope → List Grant
unfolding is_red_line
red_pairs s = retain (λ g. is_some (is_red_line g.0 g.1)) s.grants

-- `is_red_line(r, a).unwrap()`, called on red pairs only.
unfoldable pub category_of : Grant → RedLineCategory
unfolding is_red_line
category_of g = elim (is_red_line g.0 g.1) [ some k ↦ k | none ↦ money ]

-- `allowed.iter().any(|allow| allow.grants.contains(&(r, a)))`
unfoldable pub covered : List Scope → Grant → Bool
covered allowed g = any (λ s. contains s.grants g) allowed

-- The loop over the red pairs under an allow list.
unfoldable pub check_covered : List Scope → List Grant → Result RedLineCategory (Unit {0})
unfolding covered category_of
check_covered allowed [] = ok tt
check_covered allowed (g ∷ gs) =
    let rest = check_covered allowed gs in if covered allowed g then rest else err (category_of g)

-- Under `DenyByDefault` the first red pair is the error.
unfoldable pub deny_first : List Grant → Result RedLineCategory (Unit {0})
unfolding category_of
deny_first [] = ok tt
deny_first (g ∷ gs) = err (category_of g)

unfoldable pub check_pairs : RedLinePolicy → List Grant → Result RedLineCategory (Unit {0})
unfolding deny_first check_covered
check_pairs deny_by_default gs = deny_first gs
check_pairs (allow_list allowed) gs = check_covered allowed gs

-- An empty list of red pairs passes both policies, as the early return does.
unfoldable pub check : Scope → RedLinePolicy → Result RedLineCategory (Unit {0})
unfolding red_pairs check_pairs
check s policy = check_pairs policy (red_pairs s)
