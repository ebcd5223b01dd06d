-- ===== src/ProtoCap/Redline/Laws.antt =====
-- The policies of bebop2/proto-cap/src/redline.rs, stated without the loop.
use open_bebop.Prelude.{
  ◌≡◌, refl, ◌↔◌, inl, inr, true, ◌||◌, Option, none, some, List, [], ◌∷◌, ok, contains, pair_eq,
  if◌then◌else◌, Elem, Bool-cases, arith, contains→Elem, Elem→contains, Elem-retain_to,
  Elem-retain_from, ap, ◌∙◌,
}
use open_bebop.ProtoCap.Scope.{Scope, Grant, resource_eq, action_eq}
use open_bebop.ProtoCap.Redline.{
  RedLineCategory, RedLinePolicy, deny_by_default, allow_list, is_red_line, is_some, red_pairs,
  covered, check_covered, deny_first, check_pairs, check,
}

-- The operator allows a grant: it is listed, and there is a list.
abbrev pub IsAllowed : RedLinePolicy → Grant → Type 0
IsAllowed deny_by_default g = ⊥
IsAllowed (allow_list allowed) g = (s : Scope) × Elem s allowed × Elem g s.grants

covered→IsAllowed :
    (allowed : List Scope) (g : Grant) → covered allowed g ≡ true → IsAllowed (allow_list allowed) g
unfolding covered
covered→IsAllowed [] g h = cc
covered→IsAllowed (s ∷ allowed) g h = elim (Bool-cases (contains s.grants g)) [
  | inl t ↦ (s, inl refl, contains→Elem s.grants g t)
  | inr f ↦ let (u, m, e) = covered→IsAllowed allowed g (rw (f, ◌||◌) at h) in (u, inr m, e)
]

IsAllowed→covered :
    (allowed : List Scope) (g : Grant) → IsAllowed (allow_list allowed) g → covered allowed g ≡ true
unfolding covered
IsAllowed→covered [] g (s, m, e) = absurd m
IsAllowed→covered (t ∷ allowed) g (s, inl p, e) =
    let here : contains t.grants g ≡ true = Elem→contains t.grants g (rw p at e) in rw here
IsAllowed→covered (t ∷ allowed) g (s, inr m, e) =
    let there = IsAllowed→covered allowed g (s, m, e) in ground arith

check_covered_iff :
    (allowed : List Scope) (gs : List Grant)
    → (check_covered allowed gs ≡ ok tt)
      ↔ ((g : Grant) → Elem g gs → IsAllowed (allow_list allowed) g)
unfolding check_covered
check_covered_iff allowed gs = (to gs, from gs)
  where
    to :
        (gs : List Grant)
        → check_covered allowed gs ≡ ok tt
        → (g : Grant) → Elem g gs
        → IsAllowed (allow_list allowed) g
    to [] h g m = absurd m
    to (x ∷ gs) h g m = elim (Bool-cases (covered allowed x)) [
      | inl t ↦ elim m [
        | inl e ↦ covered→IsAllowed allowed g (ap (covered allowed) e ∙ t)
        | inr r ↦ to gs (rw (t, check_covered, if◌then◌else◌) at h) g r
      ]
      | inr f ↦ cc (rw (f, check_covered, if◌then◌else◌) at h)
    ]

    from :
        (gs : List Grant)
        → ((g : Grant) → Elem g gs → IsAllowed (allow_list allowed) g)
        → check_covered allowed gs ≡ ok tt
    from [] h = refl
    from (x ∷ gs) h =
        rw (IsAllowed→covered allowed x (h x (inl refl)), check_covered)
          (from gs (λ g m. h g (inr m)))

deny_first_iff :
    (gs : List Grant)
    → (deny_first gs ≡ ok tt) ↔ ((g : Grant) → Elem g gs → IsAllowed deny_by_default g)
unfolding deny_first
deny_first_iff [] = (λ h g m. absurd m, λ h. refl)
deny_first_iff (x ∷ gs) = (λ h. cc, λ h. absurd (h x (inl refl)))

check_pairs_iff :
    (policy : RedLinePolicy) (gs : List Grant)
    → (check_pairs policy gs ≡ ok tt) ↔ ((g : Grant) → Elem g gs → IsAllowed policy g)
unfolding check_pairs
check_pairs_iff deny_by_default gs = deny_first_iff gs
check_pairs_iff (allow_list allowed) gs = check_covered_iff allowed gs

is_some_iff :
    (g : Grant)
    → (is_some (is_red_line g.0 g.1) ≡ true)
      ↔ ((k : RedLineCategory) × (is_red_line g.0 g.1 ≡ some k))
is_some_iff g = (to (is_red_line g.0 g.1), from (is_red_line g.0 g.1))
  where
    to : (o : Option RedLineCategory) → is_some o ≡ true → (k : RedLineCategory) × (o ≡ some k)
    to none h = cc
    to (some k) h = (k, refl)

    from : (o : Option RedLineCategory) → (k : RedLineCategory) × (o ≡ some k) → is_some o ≡ true
    from o (k, e) = rw e

-- The gate passes a scope exactly when the policy allow-lists every red-line grant in it; without
-- an allow list that means that it holds no red-line grant.
pub check_iff :
    (s : Scope) (policy : RedLinePolicy)
    → (check s policy ≡ ok tt) ↔ (
        (g : Grant) (k : RedLineCategory)
        → Elem g s.grants
        → is_red_line g.0 g.1 ≡ some k
        → IsAllowed policy g)
unfolding check
check_iff s policy = (to, from)
  where
    to :
        check_pairs policy (red_pairs s) ≡ ok tt
        → (g : Grant) (k : RedLineCategory) → Elem g s.grants
        → is_red_line g.0 g.1 ≡ some k
        → IsAllowed policy g
    to h g k m e =
        (check_pairs_iff policy (red_pairs s)).0 h g
          (Elem-retain_from _ g s.grants m ((is_some_iff g).1 (k, e)))

    from :
        ((g : Grant) (k : RedLineCategory)
          → Elem g s.grants
          → is_red_line g.0 g.1 ≡ some k
          → IsAllowed policy g)
        → check_pairs policy (red_pairs s) ≡ ok tt
    from h = (check_pairs_iff policy (red_pairs s)).1 λ g m.
        let (here, red) = Elem-retain_to _ g s.grants m in
        let (k, e) = (is_some_iff g).0 red in h g k here e
