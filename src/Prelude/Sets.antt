-- ===== src/Prelude/Sets.antt =====
-- Lists as sets: those with the same elements, each once, are sorted to one list.
use mathlib.Core.Path.{◌≡◌, refl, ap, sym, ◌∙◌, subst}
use mathlib.Core.Logic.{◌↔◌, ◌⊎◌, inl, inr}
use mathlib.Core.Bool.{Bool, false, not}
use mathlib.Core.List.{List, [], ◌∷◌, ◌++◌}
use open_bebop.Prelude.Equality.{
  Eq, Elem, contains, Elem→contains, contains→Elem, ◌≟◌, ≟_of_ne, ne_of_≟,
}
use Prim.Native.Nat.{◌+◌, ◌≤◌}
use native.Mathlib.Omega.{arith}
use open_bebop.Prelude.Lists.{length, retain}
use open_bebop.Prelude.Filters.{Distinct, Elem-retain_from}
use open_bebop.Prelude.Tests.{Bool-cases, ||_false}
use open_bebop.Prelude.Sort.{sort}
use open_bebop.Prelude.Ranking.{
  IsTotalOrder, IsAscending, IsFirst-unique, ascending-IsFirst, sort-IsAscending, sort-Distinct,
  Elem-sort_to, Elem-sort_from,
}

abbrev pub SameElements : {A : Type 0} → List A → List A → Type 0
SameElements {A} xs ys = (a : A) → Elem a xs ↔ Elem a ys

absent : {A : Type 0} ⦃e : Eq A⦄ (a : A) (xs : List A) → contains xs a ≡ false → Elem a xs → ⊥
absent a xs h m = cc (h, Elem→contains xs a m)

module _ {A : Type 0} ⦃e : Eq A⦄ (le : A → A → Bool) (o : IsTotalOrder le) where
  -- The tails of two lists with one head and the same elements have the same elements.
  rest_same :
      (x : A) (xs ys : List A)
      → contains xs x ≡ false
      → ((a : A) → Elem a (x ∷ xs) → Elem a (x ∷ ys))
      → (a : A) → Elem a xs
      → Elem a ys
  rest_same x xs ys new to a m = elim (to a (inr m)) [
    | inl p ↦ absurd (absent x xs new (subst (λ b. Elem b xs) p m))
    | inr n ↦ n
  ]

  ascending_unique :
      (xs ys : List A)
      → IsAscending le o xs
      → IsAscending le o ys
      → Distinct xs
      → Distinct ys
      → SameElements xs ys
      → xs ≡ ys
  ascending_unique [] [] ax ay dx dy same = refl
  ascending_unique [] (y ∷ ys) ax ay dx dy same = absurd ((same y).1 (inl refl))
  ascending_unique (x ∷ xs) [] ax ay dx dy same = absurd ((same x).0 (inl refl))
  ascending_unique (x ∷ xs) (y ∷ ys) ax ay dx dy same =
      let first_x = ascending-IsFirst le o x xs ax in
      let first_y = ascending-IsFirst le o y ys ay in
      let head : x ≡ y =
        IsFirst-unique le o x y (x ∷ xs) first_x
          ((same y).1 (inl refl), λ b m. first_y.1 b ((same b).0 m)) in
      let there : (a : A) → Elem a (x ∷ xs) → Elem a (x ∷ ys) =
        λ a m. subst (λ z. Elem a (z ∷ ys)) (sym head) ((same a).0 m) in
      let back : (a : A) → Elem a (x ∷ ys) → Elem a (x ∷ xs) =
        λ a m. (same a).1 (subst (λ z. Elem a (z ∷ ys)) head m) in
      let new_y : contains ys x ≡ false = ap (contains ys) head ∙ dy.0 in
      let tails =
        ascending_unique xs ys ax.1 ay.1 dx.1 dy.1
          (λ a. (rest_same x xs ys dx.0 there a, rest_same x ys xs new_y back a)) in
      cc (head, tails)

  pub sort-eq_of_same :
      (xs ys : List A) → Distinct xs → Distinct ys → SameElements xs ys → sort le xs ≡ sort le ys
  sort-eq_of_same xs ys dx dy same =
      ascending_unique (sort le xs) (sort le ys) (sort-IsAscending le o xs)
        (sort-IsAscending le o ys) (sort-Distinct le xs dx) (sort-Distinct le ys dy)
        (λ a. (
          λ m. Elem-sort_from le a ys ((same a).0 (Elem-sort_to le a xs m)),
          λ m. Elem-sort_from le a xs ((same a).1 (Elem-sort_to le a ys m)),
        ))

module _ {A : Type 0} where
  pub Elem-append_to : (a : A) (xs ys : List A) → Elem a (xs ++ ys) → Elem a xs ⊎ Elem a ys
  Elem-append_to a [] ys m = inr m
  Elem-append_to a (x ∷ xs) ys (inl p) = inl (inl p)
  Elem-append_to a (x ∷ xs) ys (inr m) = elim (Elem-append_to a xs ys m) [
    | inl n ↦ inl (inr n)
    | inr n ↦ inr n
  ]

  pub Elem-append_left : (a : A) (xs ys : List A) → Elem a xs → Elem a (xs ++ ys)
  Elem-append_left a [] ys m = absurd m
  Elem-append_left a (x ∷ xs) ys (inl p) = inl p
  Elem-append_left a (x ∷ xs) ys (inr m) = inr (Elem-append_left a xs ys m)

  pub Elem-append_right : (a : A) (xs ys : List A) → Elem a ys → Elem a (xs ++ ys)
  Elem-append_right a [] ys m = m
  Elem-append_right a (x ∷ xs) ys m = inr (Elem-append_right a xs ys m)

module _ {A : Type 0} ⦃e : Eq A⦄ where
  pub Elem→false : (a : A) (xs : List A) → (Elem a xs → ⊥) → contains xs a ≡ false
  Elem→false a xs h = elim (Bool-cases (contains xs a)) [
    | inl t ↦ absurd (h (contains→Elem xs a t))
    | inr f ↦ f
  ]

  pub Distinct-snoc :
      (xs : List A) (a : A) → Distinct xs → contains xs a ≡ false → Distinct (xs ++ (a ∷ []))
  unfolding contains
  Distinct-snoc [] a d h = (refl, tt)
  Distinct-snoc (x ∷ xs) a d h =
      let (q, r) = ||_false (a ≟ x) (contains xs a) h in
      let new : contains (xs ++ (a ∷ [])) x ≡ false = Elem→false x (xs ++ (a ∷ [])) (λ m.
        elim (Elem-append_to x xs (a ∷ []) m) [
          | inl n ↦ absent x xs d.0 n
          | inr n ↦ elim n [ inl p ↦ ne_of_≟ a x q (sym p) | inr z ↦ z ]
        ]) in
      (new, Distinct-snoc xs a d.1 r)

module _ {A : Type 0} ⦃e : Eq A⦄ where
  length-retain_le : (p : A → Bool) (ys : List A) → length (retain p ys) ≤ length ys
  length-retain_le p [] = omega arith
  length-retain_le p (y ∷ ys) = elim (Bool-cases (p y)) [
    | inl t ↦ rw t (omega (arith, length-retain_le p ys))
    | inr f ↦ rw f (omega (arith, length-retain_le p ys))
  ]

  -- Taking an element out makes a list shorter.
  length-retain_other :
      (a : A) (ys : List A) → Elem a ys → length (retain (λ b. not (b ≟ a)) ys) + 1 ≤ length ys
  length-retain_other a [] m = absurd m
  length-retain_other a (y ∷ ys) m = elim (Bool-cases (y ≟ a)) [
    | inl t ↦ rw t (omega (arith, length-retain_le (λ b. not (b ≟ a)) ys))
    | inr f ↦ rw f (omega (arith, length-retain_other a ys (behind f m)))
  ]
    where
      behind : (y ≟ a) ≡ false → (a ≡ y) ⊎ Elem a ys → Elem a ys
      behind f (inl p) = absurd (ne_of_≟ y a f (sym p))
      behind f (inr n) = n

  -- Distinct elements of a list are no more than the list has.
  pub length-le_of_subset :
      (xs ys : List A) → Distinct xs → ((a : A) → Elem a xs → Elem a ys) → length xs ≤ length ys
  length-le_of_subset [] ys d sub = omega arith
  length-le_of_subset (x ∷ xs) ys d sub = omega (
    arith,
    length-retain_other x ys (sub x (inl refl)),
    length-le_of_subset xs (retain (λ b. not (b ≟ x)) ys) d.1 (λ a m.
        Elem-retain_from (λ b. not (b ≟ x)) a ys (sub a (inr m))
          (ap not (≟_of_ne a x (λ p. absent x xs d.0 (subst (λ z. Elem z xs) p m))))),
  )
