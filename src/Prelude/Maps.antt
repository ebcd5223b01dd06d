-- ===== src/Prelude/Maps.antt =====
-- A `HashMap` as a list of entries with one entry to a key.
use mathlib.Core.Path.{◌≡◌, refl, sym, ◌∙◌}
use mathlib.Core.Logic.{◌⊎◌, inl, inr}
use mathlib.Core.Bool.{Bool, false, ◌||◌}
use mathlib.Core.Option.{Option, none, some}
use mathlib.Core.List.{List, [], ◌∷◌}
use native.Mathlib.Omega.{arith}
use open_bebop.Prelude.Equality.{Eq, ◌≟◌, Elem, eq_of_≟, ne_of_≟, ≟_of_ne}
use open_bebop.Prelude.Tests.{if◌then◌else◌, Bool-cases, ||_false}

or_idem : (a b : Bool) → (a || (a || b)) ≡ (a || b)
or_idem a b = ground arith

or_swap : (a b c : Bool) → (a || (b || c)) ≡ (b || (a || c))
or_swap a b c = ground arith

module _ {K V : Type 0} ⦃e : Eq K⦄ where
  -- `get`
  unfoldable pub lookup : K → List (K × V) → Option V
  lookup key [] = none
  lookup key ((k, v) ∷ m) = let rest = lookup key m in if key ≟ k then some v else rest

  -- `contains_key`
  unfoldable pub has_key : K → List (K × V) → Bool
  has_key key [] = false
  has_key key ((k, v) ∷ m) = key ≟ k || has_key key m

  -- `insert`
  unfoldable pub put : K → V → List (K × V) → List (K × V)
  put key value [] = (key, value) ∷ []
  put key value ((k, v) ∷ m) =
      let rest = put key value m in if key ≟ k then (key, value) ∷ m else (k, v) ∷ rest

  pub lookup-put :
      (key other : K) (value : V) (m : List (K × V))
      → lookup other (put key value m) ≡ (if other ≟ key then some value else lookup other m)
  unfolding lookup put
  lookup-put key other value [] = refl
  lookup-put key other value ((k, v) ∷ m) = elim (Bool-cases (key ≟ k)) [
    | inl t ↦ elim (Bool-cases (other ≟ key)) [
      | inl u ↦ rw (t, u) refl
      | inr n ↦ rw (t, n) (rw (sym (eq_of_≟ key k t), n) refl)
    ]
    | inr f ↦ elim (Bool-cases (other ≟ k)) [
      | inl u ↦
          rw (f, u) (rw (≟_of_ne other key (λ p. ne_of_≟ key k f (sym p ∙ eq_of_≟ other k u))) refl)
      | inr n ↦ rw (f, n) (lookup-put key other value m)
    ]
  ]

  pub has_key-put :
      (key other : K) (value : V) (m : List (K × V))
      → has_key other (put key value m) ≡ (other ≟ key || has_key other m)
  unfolding has_key put
  has_key-put key other value [] = refl
  has_key-put key other value ((k, v) ∷ m) = elim (Bool-cases (key ≟ k)) [
    | inl t ↦ rw t (rw (sym (eq_of_≟ key k t)) (sym (or_idem (other ≟ key) (has_key other m))))
    | inr f ↦
        rw (f, has_key-put key other value m) (or_swap (other ≟ k) (other ≟ key) (has_key other m))
  ]

  -- A value put at a key, and the others that were there.
  pub Elem-put :
      (key : K) (value : V) (m : List (K × V)) (entry : K × V)
      → Elem entry (put key value m)
      → (entry ≡ (key, value)) ⊎ Elem entry m
  unfolding put
  Elem-put key value [] entry (inl p) = inl p
  Elem-put key value [] entry (inr z) = absurd z
  Elem-put key value ((k, v) ∷ m) entry p = elim (Bool-cases (key ≟ k)) [
    | inl t ↦ first (rw (t, if◌then◌else◌) at p)
    | inr f ↦ later (rw (f, if◌then◌else◌) at p) (Elem-put key value m entry)
  ]
    where
      first :
          (entry ≡ (key, value)) ⊎ Elem entry m
          → (entry ≡ (key, value)) ⊎ ((entry ≡ (k, v)) ⊎ Elem entry m)
      first (inl q) = inl q
      first (inr q) = inr (inr q)

      later :
          (entry ≡ (k, v)) ⊎ Elem entry (put key value m)
          → (Elem entry (put key value m) → (entry ≡ (key, value)) ⊎ Elem entry m)
          → (entry ≡ (key, value)) ⊎ ((entry ≡ (k, v)) ⊎ Elem entry m)
      later (inl q) ih = inr (inl q)
      later (inr q) ih = elim (ih q) [ inl r ↦ inl r | inr r ↦ inr (inr r) ]

  -- A new entry does not displace any.
  pub Elem-put_old :
      (key : K) (value : V) (m : List (K × V)) (entry : K × V)
      → has_key key m ≡ false
      → Elem entry m
      → Elem entry (put key value m)
  unfolding put has_key
  Elem-put_old key value [] entry new p = absurd p
  Elem-put_old key value ((k, v) ∷ m) entry new (inl p) =
      rw (||_false (key ≟ k) (has_key key m) new).0 (inl p)
  Elem-put_old key value ((k, v) ∷ m) entry new (inr p) =
      let (f, rest) = ||_false (key ≟ k) (has_key key m) new in
      rw f (inr (Elem-put_old key value m entry rest p))

  pub Elem-put_new : (key : K) (value : V) (m : List (K × V)) → Elem (key, value) (put key value m)
  unfolding put
  Elem-put_new key value [] = inl refl
  Elem-put_new key value ((k, v) ∷ m) = elim (Bool-cases (key ≟ k)) [
    | inl t ↦ rw t (inl refl)
    | inr f ↦ rw f (inr (Elem-put_new key value m))
  ]
