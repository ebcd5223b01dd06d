-- ===== src/Prelude/Equality.antt =====
-- Rust's `PartialEq` as an interface, `slice::contains` over it, and a `HashSet` as a list.
use Prim.Native.Nat.{ℕ}
use mathlib.Core.Path.{◌≡◌, refl, ap}
use mathlib.Core.Logic.{◌↔◌, ◌⊎◌, inl, inr, ◌≢◌}
use mathlib.Core.Bool.{Bool, true, false, ◌&&◌, ◌||◌}
use mathlib.Core.List.{List, [], ◌∷◌}
use open_bebop.Prelude.Tests.{◌==◌ as nat_beq, ==_iff, &&_iff, Bool-cases, if◌then◌else◌}

pub record Eq {ℓ} (A : Type ℓ) : Type ℓ where
  pub beq : A → A → Bool
  pub beq_iff : (a b : A) → (beq a b ≡ true) ↔ (a ≡ b)

infix 50 ◌≟◌
abbrev pub ◌≟◌ {ℓ} : {A : Type ℓ} ⦃e : Eq A⦄ → A → A → Bool
◌≟◌ ⦃e⦄ = e.beq

instance abbrev pub nat_eq : Eq ℕ
nat_eq = record { beq = nat_beq; beq_iff = ==_iff }

-- Membership by recursion.
abbrev pub Elem : {A : Type 0} → A → List A → Type 0
Elem a [] = ⊥
Elem a (x ∷ xs) = (a ≡ x) ⊎ Elem a xs

module _ {ℓ} {A : Type ℓ} ⦃e : Eq A⦄ where
  pub eq_of_≟ : (a b : A) → (a ≟ b) ≡ true → a ≡ b
  eq_of_≟ a b h = (e.beq_iff a b).0 h

  pub ≟-refl : (a : A) → (a ≟ a) ≡ true
  ≟-refl a = (e.beq_iff a a).1 refl

  pub ne_of_≟ : (a b : A) → (a ≟ b) ≡ false → a ≢ b
  ne_of_≟ a b h p = cc ((e.beq_iff a b).1 p)

  pub ≟_of_ne : (a b : A) → a ≢ b → (a ≟ b) ≡ false
  ≟_of_ne a b h = elim (Bool-cases (a ≟ b)) [ inl t ↦ absurd (h (eq_of_≟ a b t)) | inr f ↦ f ]

module _ {A : Type 0} ⦃e : Eq A⦄ where
  unfoldable pub contains : List A → A → Bool
  contains [] key = false
  contains (y ∷ ys) key = key ≟ y || contains ys key

  -- `HashSet::insert`, without its result.
  unfoldable pub insert : A → List A → List A
  insert key set = if contains set key then set else key ∷ set

  pub contains→Elem : (xs : List A) (a : A) → contains xs a ≡ true → Elem a xs
  unfolding contains
  contains→Elem [] a h = cc h
  contains→Elem (x ∷ xs) a h = elim (Bool-cases (a ≟ x)) [
    | inl t ↦ inl (eq_of_≟ a x t)
    | inr f ↦ inr (contains→Elem xs a (rw (f, contains) at h))
  ]

  pub Elem→contains : (xs : List A) (a : A) → Elem a xs → contains xs a ≡ true
  unfolding contains
  Elem→contains [] a h = absurd h
  Elem→contains (x ∷ xs) a (inl p) = rw (p, ≟-refl x)
  Elem→contains (x ∷ xs) a (inr m) = elim (Bool-cases (a ≟ x)) [
    | inl t ↦ rw t
    | inr f ↦ rw (f, Elem→contains xs a m)
  ]

  pub contains_iff : (xs : List A) (a : A) → (contains xs a ≡ true) ↔ Elem a xs
  contains_iff xs a = (contains→Elem xs a, Elem→contains xs a)

  pub contains-insert :
      (a b : A) (xs : List A) → contains (insert a xs) b ≡ (b ≟ a || contains xs b)
  unfolding insert contains
  contains-insert a b xs = elim (Bool-cases (contains xs a)) [
    | inl old ↦ elim (Bool-cases (b ≟ a)) [
      | inl t ↦ rw (old, t) (rw (eq_of_≟ b a t) old)
      | inr f ↦ rw (old, f)
    ]
    | inr new ↦ rw (new, insert)
  ]

-- The derived `PartialEq` of an enum, from its decided equality, and that of a pair.
abbrev pub decide_eq {ℓ} : {A : Type ℓ} → Discrete A → A → A → Bool
decide_eq d a b = elim (d a b) [ yes p ↦ true | no p ↦ false ]

pub decide_eq_iff {ℓ} : {A : Type ℓ} (d : Discrete A) (a b : A) → (decide_eq d a b ≡ true) ↔ (a ≡ b)
decide_eq_iff d a b = (to (d a b), from (d a b))
  where
    to : (r : Dec (a ≡ b)) → (elim r [ yes p ↦ true | no p ↦ false ]) ≡ true → a ≡ b
    to (yes p) h = p
    to (no p) h = cc

    from : (r : Dec (a ≡ b)) → a ≡ b → (elim r [ yes p ↦ true | no p ↦ false ]) ≡ true
    from (yes p) e = refl
    from (no p) e = absurd (p e)

pub pair_beq_iff :
    {A B : Type 0} (ea : Eq A) (eb : Eq B) (p q : A × B)
    → ((ea.beq p.0 q.0 && eb.beq p.1 q.1) ≡ true) ↔ (p ≡ q)
pair_beq_iff ea eb p q = (to, from)
  where
    to : (ea.beq p.0 q.0 && eb.beq p.1 q.1) ≡ true → p ≡ q
    to h =
        let both = (&&_iff (ea.beq p.0 q.0) (eb.beq p.1 q.1)).0 h in
        λ i. ((ea.beq_iff p.0 q.0).0 both.0 i, (eb.beq_iff p.1 q.1).0 both.1 i)

    from : p ≡ q → (ea.beq p.0 q.0 && eb.beq p.1 q.1) ≡ true
    from e =
        (&&_iff _ _).1
          ((ea.beq_iff p.0 q.0).1 (ap (λ r. r.0) e), (eb.beq_iff p.1 q.1).1 (ap (λ r. r.1) e))

instance abbrev pub pair_eq : {A B : Type 0} ⦃ea : Eq A⦄ ⦃eb : Eq B⦄ → Eq (A × B)
pair_eq ⦃ea⦄ ⦃eb⦄ = record {
  beq = λ p q. ea.beq p.0 q.0 && eb.beq p.1 q.1;
  beq_iff = pair_beq_iff ea eb;
}
