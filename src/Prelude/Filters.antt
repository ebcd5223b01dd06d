-- ===== src/Prelude/Filters.antt =====
-- Filters by a Boolean closure, and lists whose elements are told apart by a key.
use mathlib.Core.Path.{◌≡◌, refl, ap, sym, ◌∙◌, subst}
use mathlib.Core.Logic.{◌⊎◌, inl, inr}
use mathlib.Core.Bool.{Bool, true, false, ◌&&◌}
use mathlib.Core.List.{List, [], ◌∷◌, ◌++◌, map}
use open_bebop.Prelude.Tests.{||_false, Bool-cases, if◌then◌else◌}
use open_bebop.Prelude.Lists.{retain, All}
use open_bebop.Prelude.Equality.{Eq, ◌≟◌, Elem, contains, Elem→contains}

-- What a `filter` keeps.
retain-cons_true :
    {A : Type 0} (p : A → Bool) (x : A) (xs : List A)
    → p x ≡ true
    → retain p (x ∷ xs) ≡ x ∷ retain p xs
retain-cons_true p x xs t = rw (t, if◌then◌else◌)

retain-cons_false :
    {A : Type 0} (p : A → Bool) (x : A) (xs : List A)
    → p x ≡ false
    → retain p (x ∷ xs) ≡ retain p xs
retain-cons_false p x xs f = rw (f, if◌then◌else◌)

pub Elem-retain_to :
    {A : Type 0} (p : A → Bool) (a : A) (xs : List A)
    → Elem a (retain p xs)
    → Elem a xs × (p a ≡ true)
Elem-retain_to p a [] m = absurd m
Elem-retain_to p a (x ∷ xs) m = elim (Bool-cases (p x)) [
  | inl t ↦
      let m' : (a ≡ x) ⊎ Elem a (retain p xs) = subst (Elem a) (retain-cons_true p x xs t) m in
      elim m' [
        | inl e ↦ (inl e, ap p e ∙ t)
        | inr r ↦ let h = Elem-retain_to p a xs r in (inr h.0, h.1)
      ]
  | inr f ↦
      let h = Elem-retain_to p a xs (subst (Elem a) (retain-cons_false p x xs f) m) in
      (inr h.0, h.1)
]

pub Elem-retain_from :
    {A : Type 0} (p : A → Bool) (a : A) (xs : List A)
    → Elem a xs
    → p a ≡ true
    → Elem a (retain p xs)
Elem-retain_from p a [] m h = absurd m
Elem-retain_from p a (x ∷ xs) (inl e) h =
    subst (Elem a) (sym (retain-cons_true p x xs (ap p (sym e) ∙ h))) (inl e)
Elem-retain_from p a (x ∷ xs) (inr m) h = elim (Bool-cases (p x)) [
  | inl t ↦ subst (Elem a) (sym (retain-cons_true p x xs t)) (inr (Elem-retain_from p a xs m h))
  | inr f ↦ subst (Elem a) (sym (retain-cons_false p x xs f)) (Elem-retain_from p a xs m h)
]

-- No element stands twice.
abbrev pub Distinct : {A : Type 0} ⦃e : Eq A⦄ → List A → Type 0
Distinct [] = Unit {0}
Distinct ⦃e⦄ (x ∷ xs) = (contains xs x ≡ false) × Distinct xs

-- What holds of all elements, by the elements.
module _ {A : Type 0} (P : A → Type 0) where
  pub All-Elem : (b : A) (xs : List A) → All P xs → Elem b xs → P b
  All-Elem b [] h m = absurd m
  All-Elem b (x ∷ xs) h (inl e) = subst P (sym e) h.0
  All-Elem b (x ∷ xs) h (inr m) = All-Elem b xs h.1 m

  pub All-of_Elem : (xs : List A) → ((b : A) → Elem b xs → P b) → All P xs
  All-of_Elem [] h = tt
  All-of_Elem (x ∷ xs) h = (h x (inl refl), All-of_Elem xs (λ b m. h b (inr m)))

module _ {A : Type 0} where
  -- Filters that agree on the elements give one result.
  pub retain_ext :
      (p q : A → Bool) (xs : List A) → ((a : A) → Elem a xs → p a ≡ q a) → retain p xs ≡ retain q xs
  retain_ext p q [] h = refl
  retain_ext p q (x ∷ xs) h =
      let rest = retain_ext p q xs (λ a m. h a (inr m)) in
      rw (h x (inl refl)) (ap (λ ys. if q x then x ∷ ys else ys) rest)

  pub retain-retain :
      (p q : A → Bool) (xs : List A) → retain p (retain q xs) ≡ retain (λ a. q a && p a) xs
  retain-retain p q [] = refl
  retain-retain p q (x ∷ xs) = elim (Bool-cases (q x)) [
    | inl t ↦ rw t (ap (λ ys. if p x then x ∷ ys else ys) (retain-retain p q xs))
    | inr f ↦ rw f (retain-retain p q xs)
  ]

  pub retain-append :
      (p : A → Bool) (xs ys : List A) → retain p (xs ++ ys) ≡ retain p xs ++ retain p ys
  retain-append p [] ys = refl
  retain-append p (x ∷ xs) ys = elim (Bool-cases (p x)) [
    | inl t ↦ rw t (ap (◌∷◌ x) (retain-append p xs ys))
    | inr f ↦ rw f (retain-append p xs ys)
  ]

  pub retain-map :
      {B : Type 0} (f : B → A) (p : A → Bool) (xs : List B)
      → retain p (map f xs) ≡ map f (retain (λ b. p (f b)) xs)
  retain-map f p [] = refl
  retain-map f p (x ∷ xs) = elim (Bool-cases (p (f x))) [
    | inl t ↦ rw t (ap (◌∷◌ (f x)) (retain-map f p xs))
    | inr e ↦ rw e (retain-map f p xs)
  ]

-- Elements told apart by a key.
module _ {A K : Type 0} ⦃e : Eq K⦄ (key : A → K) where
  pub Elem-contains-map : (xs : List A) (a : A) → Elem a xs → contains (map key xs) (key a) ≡ true
  Elem-contains-map xs a m = Elem→contains (map key xs) (key a) (mapped xs m)
    where
      mapped : (xs : List A) → Elem a xs → Elem (key a) (map key xs)
      mapped [] m = m
      mapped (x ∷ xs) (inl p) = inl (ap key p)
      mapped (x ∷ xs) (inr m) = inr (mapped xs m)

  -- A key that is not among those of a list is not among those that a filter keeps.
  pub contains-map-retain-false :
      (p : A → Bool) (xs : List A) (k : K)
      → contains (map key xs) k ≡ false
      → contains (map key (retain p xs)) k ≡ false
  unfolding contains
  contains-map-retain-false p [] k h = refl
  contains-map-retain-false p (x ∷ xs) k h =
      let (apart, later) = ||_false (k ≟ key x) (contains (map key xs) k) h in
      let rest = contains-map-retain-false p xs k later in
      elim (Bool-cases (p x)) [ inl t ↦ rw t (rw (apart, rest)) | inr f ↦ rw f rest ]

  pub Distinct-retain :
      (p : A → Bool) (xs : List A) → Distinct (map key xs) → Distinct (map key (retain p xs))
  Distinct-retain p [] h = tt
  Distinct-retain p (x ∷ xs) h = elim (Bool-cases (p x)) [
    | inl t ↦ rw t (contains-map-retain-false p xs (key x) h.0, Distinct-retain p xs h.1)
    | inr f ↦ rw f (Distinct-retain p xs h.1)
  ]
