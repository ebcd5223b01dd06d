-- ===== src/Delivery/Finalization/Conflict.antt =====
-- Which pair the two loops of `detect_conflict`, bebop2/delivery-domain/src/finalization.rs, find.
use open_bebop.Prelude.{
  ℕ, zero, suc, ◌+◌, ◌≡◌, ◌≢◌, refl, ap, sym, ◌∙◌, ◌↔◌, true, false, Option, none, some, List, [],
  ◌∷◌, ◌==◌, ==_iff, get_elem?, Elem, ◌⊎◌, inl, inr, Bool-cases, Option-cases, arith,
}
use open_bebop.Delivery.Finalization.{
  Finalization, split, conflict_with, or_later, conflict_from, detect_conflict,
}

split_self : (a : Finalization) → split a a ≡ false
unfolding split
split_self a = ground arith

-- One round of the inner loop.
with_none-step :
    (i : ℕ) (a : Finalization) (j : ℕ) (x : Finalization) (bs : List Finalization)
    → conflict_with i a j (x ∷ bs) ≡ none
    → (conflict_with i a (j + 1) bs ≡ none) × (a.order_id ≡ x.order_id → i ≢ j → split a x ≡ false)
unfolding conflict_with
with_none-step i a j x bs h = ground arith

with_some-step :
    (i : ℕ) (a : Finalization) (j : ℕ) (x : Finalization) (bs : List Finalization) (p q : ℕ)
    → conflict_with i a j (x ∷ bs) ≡ some (p, q)
    → (conflict_with i a (j + 1) bs ≡ some (p, q))
      ⊎ ((p ≡ i) × (q ≡ j) × (a.order_id ≡ x.order_id) × (split a x ≡ true))
unfolding conflict_with
with_some-step i a j x bs p q h = ground arith

-- The inner loop: nothing found means that the record agrees with all others; the record that is
-- skipped is the record itself.
with_none :
    (i : ℕ) (a : Finalization) (j : ℕ) (bs : List Finalization)
    → conflict_with i a j bs ≡ none
    → ((k : ℕ) (b : Finalization) → get_elem? bs k ≡ some b → j + k ≡ i → b ≡ a)
    → (b : Finalization) → Elem b bs
    → a.order_id ≡ b.order_id
    → split a b ≡ false
with_none i a j [] h self b m same = absurd m
with_none i a j (x ∷ bs) h self b (inl e) same =
    let clear = (with_none-step i a j x bs h).1 in
    elim (Bool-cases (i == j)) [
      | inl t ↦ rw (e, self 0 x refl (omega (arith, (==_iff i j).0 t))) (split_self a)
      | inr f ↦
          rw e (clear (same ∙ ap (λ (r : Finalization). r.order_id) e) (λ p. cc ((==_iff i j).1 p)))
    ]
with_none i a j (x ∷ bs) h self b (inr m) same =
    with_none i a (j + 1) bs (with_none-step i a j x bs h).0
      (λ k c at there. self (suc k) c at (omega arith)) b m same

-- The inner loop: what it reports is a record of the list at the index that it names.
with_some :
    (i : ℕ) (a : Finalization) (j : ℕ) (bs : List Finalization) (p q : ℕ)
    → conflict_with i a j bs ≡ some (p, q)
    → (p ≡ i)
      × (k : ℕ) × (b : Finalization) × (q ≡ j + k)
      × (get_elem? bs k ≡ some b)
      × (a.order_id ≡ b.order_id)
      × (split a b ≡ true)
unfolding conflict_with
with_some i a j [] p q h = absurd (cc h)
with_some i a j (x ∷ bs) p q h = elim (with_some-step i a j x bs p q h) [
  | inl later ↦
      let (e, k, b, place, there, same, differ) = with_some i a (j + 1) bs p q later in
      (e, suc k, b, omega arith, there, same, differ)
  | inr (e, at, same, differ) ↦ (e, 0, x, omega arith, refl, same, differ)
]

or_later-eq-none : (o l : Option (ℕ × ℕ)) → or_later o l ≡ none → (o ≡ none) × (l ≡ none)
or_later-eq-none none l h = (refl, h)
or_later-eq-none (some p) l h = absurd (cc h)

or_later-eq-some :
    (o l : Option (ℕ × ℕ)) (p : ℕ × ℕ) → or_later o l ≡ some p → (o ≡ some p) ⊎ (l ≡ some p)
or_later-eq-some none l p h = inr h
or_later-eq-some (some q) l p h = inl h

-- One round of the outer loop.
from_none-step :
    (order : ℕ) (all : List Finalization) (i : ℕ) (a : Finalization) (rest : List Finalization)
    → conflict_from order all i (a ∷ rest) ≡ none
    → (conflict_from order all (i + 1) rest ≡ none)
      × (a.order_id ≡ order → conflict_with i a 0 all ≡ none)
unfolding conflict_from
from_none-step order all i a rest h = elim (Bool-cases (a.order_id == order)) [
  | inl t ↦ let r = or_later-eq-none _ _ (rw t at h) in (r.1, λ e. r.0)
  | inr f ↦ (rw f at h, λ e. cc (f, (==_iff a.order_id order).1 e))
]

from_some-step :
    (order : ℕ) (all : List Finalization) (i : ℕ) (a : Finalization) (rest : List Finalization)
    (p : ℕ × ℕ)
    → conflict_from order all i (a ∷ rest) ≡ some p
    → (conflict_from order all (i + 1) rest ≡ some p)
      ⊎ ((a.order_id ≡ order) × (conflict_with i a 0 all ≡ some p))
unfolding conflict_from
from_some-step order all i a rest p h = elim (Bool-cases (a.order_id == order)) [
  | inl t ↦ elim (or_later-eq-some _ _ p (rw t at h)) [
    | inl here ↦ inr ((==_iff a.order_id order).0 t, here)
    | inr later ↦ inl later
  ]
  | inr f ↦ inl (rw f at h)
]

-- The records that the outer loop has left, from index `i`, are those of the whole list there.
abbrev IsTail : List Finalization → ℕ → List Finalization → Type 0
IsTail all i rest = (k : ℕ) → get_elem? rest k ≡ get_elem? all (i + k)

IsTail-step :
    (all : List Finalization) (i : ℕ) (a : Finalization) (rest : List Finalization)
    → IsTail all i (a ∷ rest)
    → IsTail all (i + 1) rest
IsTail-step all i a rest h k =
    h (suc k) ∙ ap (get_elem? all) (let e : i + suc k ≡ (i + 1) + k = omega arith in e)

tail_head :
    (all : List Finalization) (i : ℕ) (a : Finalization) (rest : List Finalization)
    → IsTail all i (a ∷ rest)
    → get_elem? all i ≡ some a
tail_head all i a rest h = ap (get_elem? all) (let e : i ≡ i + 0 = omega arith in e) ∙ sym (h 0)

from_none :
    (order : ℕ) (all : List Finalization) (i : ℕ) (rest : List Finalization)
    → IsTail all i rest
    → conflict_from order all i rest ≡ none
    → (a b : Finalization) → Elem a rest
    → Elem b all
    → a.order_id ≡ order
    → a.order_id ≡ b.order_id
    → split a b ≡ false
from_none order all i [] at h a b ma mb own same = absurd ma
from_none order all i (x ∷ rest) at h a b (inl e) mb own same =
    let quiet =
      (from_none-step order all i x rest h).1
        (ap (λ (r : Finalization). r.order_id) (sym e) ∙ own) in
    let self : (k : ℕ) (c : Finalization) → get_elem? all k ≡ some c → 0 + k ≡ i → c ≡ x =
      λ k c there is.
        let place : k ≡ i = omega arith in
        cc (there, tail_head all i x rest at, ap (get_elem? all) place) in
    rw e
      (with_none i x 0 all quiet self b mb (ap (λ (r : Finalization). r.order_id) (sym e) ∙ same))
from_none order all i (x ∷ rest) at h a b (inr m) mb own same =
    from_none order all (i + 1) rest (IsTail-step all i x rest at)
      (from_none-step order all i x rest h).0 a b m mb own same

from_some :
    (order : ℕ) (all : List Finalization) (i : ℕ) (rest : List Finalization)
    → IsTail all i rest
    → (p q : ℕ) → conflict_from order all i rest ≡ some (p, q)
    → (a : Finalization) × (b : Finalization) × (get_elem? all p ≡ some a)
      × (get_elem? all q ≡ some b)
      × (a.order_id ≡ order)
      × (b.order_id ≡ order)
      × (split a b ≡ true)
unfolding conflict_from
from_some order all i [] at p q h = absurd (cc h)
from_some order all i (x ∷ rest) at p q h = elim (from_some-step order all i x rest (p, q) h) [
  | inl later ↦ from_some order all (i + 1) rest (IsTail-step all i x rest at) p q later
  | inr (own, here) ↦
      let (e, k, b, place, there, same, differ) = with_some i x 0 all p q here in
      (
        x,
        b,
        ap (get_elem? all) e ∙ tail_head all i x rest at,
        ap (get_elem? all) (let at_k : q ≡ k = omega arith in at_k) ∙ there,
        own,
        sym same ∙ own,
        differ,
      )
]

-- Whether the records are at peace: those of the first's order agree, two by two.
abbrev pub Agree : ℕ → List Finalization → Type 0
Agree order fs =
    (a b : Finalization)
    → Elem a fs
    → Elem b fs
    → a.order_id ≡ order
    → b.order_id ≡ order
    → split a b ≡ false

pub detect_conflict-eq-some :
    (f : Finalization) (fs : List Finalization) (i j : ℕ)
    → detect_conflict (f ∷ fs) ≡ some (i, j)
    → (a : Finalization) × (b : Finalization) × (get_elem? (f ∷ fs) i ≡ some a)
      × (get_elem? (f ∷ fs) j ≡ some b)
      × (a.order_id ≡ f.order_id)
      × (b.order_id ≡ f.order_id)
      × (split a b ≡ true)
unfolding detect_conflict
detect_conflict-eq-some f fs i j h =
    from_some f.order_id (f ∷ fs) 0 (f ∷ fs)
      (λ k. ap (get_elem? (f ∷ fs)) (let e : k ≡ 0 + k = omega arith in e)) i j h

Elem-get_elem? :
    (xs : List Finalization) (i : ℕ) (a : Finalization) → get_elem? xs i ≡ some a → Elem a xs
Elem-get_elem? [] i a h = absurd (cc h)
Elem-get_elem? (x ∷ xs) zero a h = inl (cc h)
Elem-get_elem? (x ∷ xs) (suc i) a h = inr (Elem-get_elem? xs i a h)

pub detect_conflict_iff :
    (f : Finalization) (fs : List Finalization)
    → (detect_conflict (f ∷ fs) ≡ none) ↔ Agree f.order_id (f ∷ fs)
unfolding detect_conflict
detect_conflict_iff f fs = (to, from)
  where
    to : detect_conflict (f ∷ fs) ≡ none → Agree f.order_id (f ∷ fs)
    to h a b ma mb oa ob =
        from_none f.order_id (f ∷ fs) 0 (f ∷ fs)
          (λ k. ap (get_elem? (f ∷ fs)) (let e : k ≡ 0 + k = omega arith in e)) h a b ma mb oa
          (oa ∙ sym ob)

    from : Agree f.order_id (f ∷ fs) → detect_conflict (f ∷ fs) ≡ none
    from agree = elim (Option-cases (detect_conflict (f ∷ fs))) [
      | inl e ↦ e
      | inr ((i, j), e) ↦
          let (a, b, at_i, at_j, oa, ob, differ) = detect_conflict-eq-some f fs i j e in
          absurd (
            cc (
              differ,
              agree a b (Elem-get_elem? (f ∷ fs) i a at_i) (Elem-get_elem? (f ∷ fs) j b at_j) oa ob,
            ))
    ]
