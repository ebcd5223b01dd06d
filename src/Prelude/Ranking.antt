-- ===== src/Prelude/Ranking.antt =====
-- Total orders given by a Boolean test, the sort by such an order, and greatest elements.
use mathlib.Core.Path.{◌≡◌, refl, ap, sym, ◌∙◌, subst}
use mathlib.Core.Bool.{Bool, true, false}
use mathlib.Core.List.{List, [], ◌∷◌, Perm, foldr, map}
use mathlib.Core.List.Perm
use mathlib.Core.Logic.{◌⊎◌, inl, inr}
use open_bebop.Prelude.Tests.{if◌then◌else◌, Bool-cases, ||_false}
use open_bebop.Prelude.Lists.{All}
use open_bebop.Prelude.Filters.{All-Elem}
use open_bebop.Prelude.Equality.{Elem, Eq, ◌≟◌, contains, ≟_of_ne, ne_of_≟}
use open_bebop.Prelude.Filters.{Distinct}
use open_bebop.Prelude.Sort.{insert_sorted, sort, insert_sorted-All}

pub record IsTotalOrder {A : Type 0} (le : A → A → Bool) : Type 0 where
  pub total : (a b : A) → le a b ≡ false → le b a ≡ true
  pub trans : (a b c : A) → le a b ≡ true → le b c ≡ true → le a c ≡ true
  pub antisymm : (a b : A) → le a b ≡ true → le b a ≡ true → a ≡ b

module _ {A : Type 0} (le : A → A → Bool) (o : IsTotalOrder le) where
  insert_head : (x z : A) (zs : List A) → le x z ≡ true → insert_sorted le x (z ∷ zs) ≡ x ∷ z ∷ zs
  unfolding insert_sorted
  insert_head x z zs t = rw t refl

  insert_later :
      (x z : A) (zs : List A)
      → le x z ≡ false
      → insert_sorted le x (z ∷ zs) ≡ z ∷ insert_sorted le x zs
  unfolding insert_sorted
  insert_later x z zs f = rw f refl

  -- The two orders of inserting agree on a pair, and in front of a list.
  swap_heads :
      (x y : A) (rest : List A)
      → (if le x y then x ∷ y ∷ rest else y ∷ x ∷ rest)
        ≡ (if le y x then y ∷ x ∷ rest else x ∷ y ∷ rest)
  swap_heads x y rest = elim (Bool-cases (le x y)) [
    | inl p ↦ elim (Bool-cases (le y x)) [
      | inl q ↦ let e = o.antisymm x y p q in rw (p, q, e) refl
      | inr q ↦ rw (p, q) refl
    ]
    | inr p ↦ rw (p, o.total x y p) refl
  ]

  -- Past a first element, an element that goes before the second stands first or second.
  insert_over :
      (x y z : A) (zs : List A)
      → le x z ≡ true
      → insert_sorted le x (y ∷ z ∷ zs) ≡ (if le x y then x ∷ y ∷ z ∷ zs else y ∷ x ∷ z ∷ zs)
  insert_over x y z zs p = elim (Bool-cases (le x y)) [
    | inl t ↦ rw (insert_head x y (z ∷ zs) t, t) refl
    | inr f ↦ rw (insert_later x y (z ∷ zs) f, insert_head x z zs p, f) refl
  ]

  insert_between :
      (x y z : A) (zs : List A)
      → le x z ≡ true
      → le y z ≡ false
      → insert_sorted le x (z ∷ insert_sorted le y zs) ≡ insert_sorted le y (x ∷ z ∷ zs)
  insert_between x y z zs p q =
      let off : le y x ≡ false = elim (Bool-cases (le y x)) [
        | inl t ↦ cc (q, o.trans y x z t p)
        | inr f ↦ f
      ] in
      rw
        (
          insert_head x z (insert_sorted le y zs) p,
          insert_later y x (z ∷ zs) off,
          insert_later y z zs q,
        )
        refl

  insert_sorted_comm :
      (x y : A) (zs : List A)
      → insert_sorted le x (insert_sorted le y zs) ≡ insert_sorted le y (insert_sorted le x zs)
  insert_sorted_comm x y [] = unfold insert_sorted in swap_heads x y []
  insert_sorted_comm x y (z ∷ zs) =
      go (insert_sorted_comm x y zs) (Bool-cases (le x z)) (Bool-cases (le y z))
    where
      go :
          (insert_sorted le x (insert_sorted le y zs) ≡ insert_sorted le y (insert_sorted le x zs))
          → ((le x z ≡ true) ⊎ (le x z ≡ false))
          → ((le y z ≡ true) ⊎ (le y z ≡ false))
          → insert_sorted le x (insert_sorted le y (z ∷ zs))
            ≡ insert_sorted le y (insert_sorted le x (z ∷ zs))
      go ih (inl p) (inl q) =
          rw (insert_head x z zs p, insert_head y z zs q)
            (insert_over x y z zs p ∙ swap_heads x y (z ∷ zs) ∙ sym (insert_over y x z zs q))
      go ih (inl p) (inr q) =
          rw (insert_head x z zs p, insert_later y z zs q) (insert_between x y z zs p q)
      go ih (inr p) (inl q) =
          rw (insert_later x z zs p, insert_head y z zs q) (sym (insert_between y x z zs q p))
      go ih (inr p) (inr q) =
          rw (insert_later x z zs p, insert_later y z zs q)
            (rw
              (
                insert_later x z (insert_sorted le y zs) p,
                insert_later y z (insert_sorted le x zs) q,
              )
              (ap (◌∷◌ z) ih))

  sort-foldr : (xs : List A) → sort le xs ≡ foldr (insert_sorted le) [] xs
  unfolding sort
  sort-foldr [] = refl
  sort-foldr (x ∷ xs) = ap (insert_sorted le x) (sort-foldr xs)

  -- The sort of a list depends on its elements only, not on the order in which they come.
  pub sort-eq_of_perm : IsSet (List A) → {xs ys : List A} → Perm xs ys → sort le xs ≡ sort le ys
  sort-eq_of_perm set {xs} {ys} p =
      sort-foldr xs
      ∙ Perm.foldr-eq set (insert_sorted le) insert_sorted_comm p []
      ∙ sym (sort-foldr ys)

  abbrev pub IsAscending : List A → Type 0
  IsAscending [] = Unit {0}
  IsAscending (x ∷ xs) = All (λ y. le x y ≡ true) xs × IsAscending xs

  All-trans :
      (x y : A) (ys : List A)
      → le x y ≡ true
      → All (λ z. le y z ≡ true) ys
      → All (λ z. le x z ≡ true) ys
  All-trans x y [] p h = tt
  All-trans x y (z ∷ ys) p h = (o.trans x y z p h.0, All-trans x y ys p h.1)

  insert_sorted-IsAscending :
      (x : A) (ys : List A) → IsAscending ys → IsAscending (insert_sorted le x ys)
  unfolding insert_sorted
  insert_sorted-IsAscending x [] h = (tt, tt)
  insert_sorted-IsAscending x (y ∷ ys) h =
      let ih = insert_sorted-IsAscending x ys h.1 in
      elim (Bool-cases (le x y)) [
        | inl p ↦ rw p ((p, All-trans x y ys p h.0), h)
        | inr q ↦ rw q (insert_sorted-All le (λ z. le y z ≡ true) x ys (o.total x y q) h.0, ih)
      ]

  pub sort-IsAscending : (xs : List A) → IsAscending (sort le xs)
  unfolding sort
  sort-IsAscending [] = tt
  sort-IsAscending (x ∷ xs) = insert_sorted-IsAscending x (sort le xs) (sort-IsAscending xs)

  -- An element that stands before every other.
  abbrev pub IsFirst : A → List A → Type 0
  IsFirst a xs = Elem a xs × ((b : A) → Elem b xs → le a b ≡ true)

  pub IsFirst-unique : (a b : A) (xs : List A) → IsFirst a xs → IsFirst b xs → a ≡ b
  IsFirst-unique a b xs (m, h) (n, k) = o.antisymm a b (h b n) (k a m)

  pub reflexive : (a : A) → le a a ≡ true
  reflexive a = elim (Bool-cases (le a a)) [ inl t ↦ t | inr f ↦ o.total a a f ]

module _ {A : Type 0} (le : A → A → Bool) where
  insert_Elem_to : (x a : A) (ys : List A) → Elem a (insert_sorted le x ys) → (a ≡ x) ⊎ Elem a ys
  unfolding insert_sorted
  insert_Elem_to x a [] m = m
  insert_Elem_to x a (y ∷ ys) m = elim (Bool-cases (le x y)) [
    | inl t ↦ rw (t, if◌then◌else◌) at m
    | inr f ↦ later (rw (f, if◌then◌else◌) at m) (insert_Elem_to x a ys)
  ]
    where
      later :
          (a ≡ y) ⊎ Elem a (insert_sorted le x ys)
          → (Elem a (insert_sorted le x ys) → (a ≡ x) ⊎ Elem a ys)
          → (a ≡ x) ⊎ ((a ≡ y) ⊎ Elem a ys)
      later (inl e) ih = inr (inl e)
      later (inr n) ih = elim (ih n) [ inl e ↦ inl e | inr k ↦ inr (inr k) ]

  insert_Elem_from : (x a : A) (ys : List A) → (a ≡ x) ⊎ Elem a ys → Elem a (insert_sorted le x ys)
  unfolding insert_sorted
  insert_Elem_from x a [] m = m
  insert_Elem_from x a (y ∷ ys) m =
      let ih = insert_Elem_from x a ys in
      elim (Bool-cases (le x y)) [ inl t ↦ rw t m | inr f ↦ rw f (later m ih) ]
    where
      later :
          (a ≡ x) ⊎ ((a ≡ y) ⊎ Elem a ys)
          → ((a ≡ x) ⊎ Elem a ys → Elem a (insert_sorted le x ys))
          → (a ≡ y) ⊎ Elem a (insert_sorted le x ys)
      later (inl e) ih = inr (ih (inl e))
      later (inr (inl e)) ih = inl e
      later (inr (inr n)) ih = inr (ih (inr n))

  pub Elem-sort_to : (a : A) (xs : List A) → Elem a (sort le xs) → Elem a xs
  unfolding sort
  Elem-sort_to a [] m = m
  Elem-sort_to a (x ∷ xs) m = elim (insert_Elem_to x a (sort le xs) m) [
    | inl e ↦ inl e
    | inr n ↦ inr (Elem-sort_to a xs n)
  ]

  pub Elem-sort_from : (a : A) (xs : List A) → Elem a xs → Elem a (sort le xs)
  unfolding sort
  Elem-sort_from a [] m = m
  Elem-sort_from a (x ∷ xs) (inl e) = insert_Elem_from x a (sort le xs) (inl e)
  Elem-sort_from a (x ∷ xs) (inr n) =
      insert_Elem_from x a (sort le xs) (inr (Elem-sort_from a xs n))

module _ {A : Type 0} (le : A → A → Bool) (o : IsTotalOrder le) where
  pub ascending-IsFirst :
      (a : A) (rest : List A) → IsAscending le o (a ∷ rest) → IsFirst le o a (a ∷ rest)
  ascending-IsFirst a rest h = (inl refl, below)
    where
      below : (b : A) → Elem b (a ∷ rest) → le a b ≡ true
      below b (inl e) = subst (λ z. le a z ≡ true) (sym e) (reflexive le o a)
      below b (inr m) = All-Elem (λ z. le a z ≡ true) b rest h.0 m

  -- The head of a sorted list is the first of its elements.
  pub sort-IsFirst : (a : A) (rest xs : List A) → sort le xs ≡ a ∷ rest → IsFirst le o a xs
  sort-IsFirst a rest xs e =
      let asc = subst (IsAscending le o) e (sort-IsAscending le o xs) in
      let (here, below) = ascending-IsFirst a rest asc in
      (
        Elem-sort_to le a xs (subst (Elem a) (sym e) here),
        λ b m. below b (subst (Elem b) e (Elem-sort_from le b xs m)),
      )

-- Sorting by a key of the elements, before or after the key is taken.
module _ {A B : Type 0} (le : A → A → Bool) (key : B → A) where
  abbrev pub by_key : B → B → Bool
  by_key a b = le (key a) (key b)

  insert_sorted-map :
      (x : B) (ys : List B)
      → insert_sorted le (key x) (map key ys) ≡ map key (insert_sorted by_key x ys)
  unfolding insert_sorted
  insert_sorted-map x [] = refl
  insert_sorted-map x (y ∷ ys) = elim (Bool-cases (le (key x) (key y))) [
    | inl t ↦ rw (t, if◌then◌else◌) refl
    | inr f ↦ rw (f, if◌then◌else◌) (ap (◌∷◌ (key y)) (insert_sorted-map x ys))
  ]

  pub sort-map : (xs : List B) → sort le (map key xs) ≡ map key (sort by_key xs)
  unfolding sort
  sort-map [] = refl
  sort-map (x ∷ xs) =
      ap (insert_sorted le (key x)) (sort-map xs) ∙ insert_sorted-map x (sort by_key xs)

-- A sort of distinct elements has distinct elements.
module _ {A : Type 0} ⦃e : Eq A⦄ (le : A → A → Bool) where
  absent_insert :
      (a x : A) (ys : List A)
      → (a ≟ x) ≡ false
      → contains ys a ≡ false
      → contains (insert_sorted le x ys) a ≡ false
  unfolding insert_sorted contains
  absent_insert a x [] p h = rw p refl
  absent_insert a x (y ∷ ys) p h =
      let (q, r) = ||_false (a ≟ y) (contains ys a) h in
      elim (Bool-cases (le x y)) [
        | inl t ↦ rw (t, if◌then◌else◌) (rw (p, q, r) refl)
        | inr f ↦ rw (f, if◌then◌else◌) (rw q (absent_insert a x ys p r))
      ]

  insert_sorted-Distinct :
      (x : A) (ys : List A) → contains ys x ≡ false → Distinct ys → Distinct (insert_sorted le x ys)
  unfolding insert_sorted contains
  insert_sorted-Distinct x [] h d = (refl, tt)
  insert_sorted-Distinct x (y ∷ ys) h d =
      let (q, r) = ||_false (x ≟ y) (contains ys x) h in
      elim (Bool-cases (le x y)) [
        | inl t ↦ rw (t, if◌then◌else◌) (rw (q, r) refl, d)
        | inr f ↦
            let apart : (y ≟ x) ≡ false = ≟_of_ne y x (λ p. ne_of_≟ x y q (sym p)) in
            rw (f, if◌then◌else◌)
              (absent_insert y x ys apart d.0, insert_sorted-Distinct x ys r d.1)
      ]

  absent_sort : (a : A) (xs : List A) → contains xs a ≡ false → contains (sort le xs) a ≡ false
  unfolding sort contains
  absent_sort a [] h = refl
  absent_sort a (x ∷ xs) h =
      let (q, r) = ||_false (a ≟ x) (contains xs a) h in
      absent_insert a x (sort le xs) q (absent_sort a xs r)

  pub sort-Distinct : (xs : List A) → Distinct xs → Distinct (sort le xs)
  unfolding sort
  sort-Distinct [] d = tt
  sort-Distinct (x ∷ xs) d =
      insert_sorted-Distinct x (sort le xs) (absent_sort x xs d.0) (sort-Distinct xs d.1)
