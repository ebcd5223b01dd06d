-- ===== src/ProtoWire/MerkleLog/Root.antt =====
-- The digest of bebop2/proto-wire/src/sync_pull.rs as a set, and that its root is a function of it.
use open_bebop.Prelude.{
  ℕ, zero, suc, ◌+◌, ◌*◌, ◌≤◌, ◌≡◌, ◌↔◌, refl, ap, sym, ◌∙◌, subst, inl, inr, true, List, [], ◌∷◌,
  ◌++◌, length, get_or, replicate, ltb, ltb_false→le, contains, insert, contains-insert, Elem,
  Distinct, Bool-cases, arith, ◌≟◌, eq_of_≟, ≟-refl, ◌||◌, ||_iff,
}
use open_bebop.Prelude.Bytes.{Bytes, bytes_eq}
use open_bebop.Prelude.Sort.{length-sort}
use open_bebop.Prelude.ByteOrder.{bytes_le, bytes_le-IsTotalOrder}
use open_bebop.Prelude.Sets.{
  SameElements, sort-eq_of_same, Distinct-snoc, Elem-append_to, Elem-append_left, Elem-append_right,
  Elem→false,
}
use open_bebop.ProtoWire.MerkleLog.{MerkleLog, new, holds, add, pair_up, climb, root_of, root}

-- The leaves are the set of the digest, each once.
pub record IsSound (m : MerkleLog) : Type 0 where
  pub distinct : Distinct m.leaves
  pub leaf_iff : (id : Bytes) → Elem id m.leaves ↔ (holds m id ≡ true)

pub new-IsSound : IsSound new
unfolding contains
new-IsSound = record { distinct = tt; leaf_iff = λ id. (λ m. absurd m, λ h. cc h) }

pub holds-add : (id key : Bytes) (m : MerkleLog) → holds (add id m) key ≡ (key ≟ id || holds m key)
unfolding add
holds-add id key m = elim (Bool-cases (contains m.seen id)) [
  | inl old ↦ elim (Bool-cases (key ≟ id)) [
    | inl t ↦ rw (old, t) (ap (contains m.seen) (eq_of_≟ key id t) ∙ old)
    | inr f ↦ rw (old, f) refl
  ]
  | inr fresh ↦ rw fresh (contains-insert id key m.seen)
]

pub add-IsSound : (id : Bytes) (m : MerkleLog) → IsSound m → IsSound (add id m)
unfolding add
add-IsSound id m s = elim (Bool-cases (contains m.seen id)) [
  | inl old ↦ subst IsSound (let e : m ≡ add id m = rw old refl in e) s
  | inr fresh ↦
      subst IsSound
        (let e : record m { leaves = m.leaves ++ (id ∷ []); seen = insert id m.seen } ≡ add id m =
            rw fresh refl in
          e)
        (record {
          distinct =
              Distinct-snoc m.leaves id s.distinct
                (Elem→false id m.leaves (λ p. cc (fresh, (s.leaf_iff id).0 p)));
          leaf_iff = λ key. (to key, from key);
        })
]
  where
    to : (key : Bytes) → Elem key (m.leaves ++ (id ∷ [])) → contains (insert id m.seen) key ≡ true
    to key p = contains-insert id key m.seen ∙ elim (Elem-append_to key m.leaves (id ∷ []) p) [
      | inl q ↦ (||_iff (key ≟ id) (contains m.seen key)).1 (inr ((s.leaf_iff key).0 q))
      | inr q ↦ elim q [
        | inl e ↦ (||_iff (key ≟ id) (contains m.seen key)).1 (inl (rw e (≟-refl id)))
        | inr z ↦ absurd z
      ]
    ]

    from : (key : Bytes) → contains (insert id m.seen) key ≡ true → Elem key (m.leaves ++ (id ∷ []))
    from key h = elim (Bool-cases (key ≟ id)) [
      | inl t ↦ Elem-append_right key m.leaves (id ∷ []) (inl (eq_of_≟ key id t))
      | inr f ↦
          Elem-append_left key m.leaves (id ∷ [])
            ((s.leaf_iff key).1 (rw (contains-insert id key m.seen, f) at h))
    ]

module _ (h : Bytes → Bytes) where
  length-pair_up :
      (level : List Bytes)
      → length level ≤ 2 * length (pair_up h level)
        × 2 * length (pair_up h level) ≤ length level + 1
  unfolding pair_up
  length-pair_up [] = omega arith
  length-pair_up (a ∷ []) = omega arith
  length-pair_up (a ∷ b ∷ level) = omega (arith, length-pair_up level)

  -- The loop ends with one node.
  pub length-climb :
      (fuel : ℕ) (level : List Bytes)
      → 1 ≤ length level
      → length level ≤ suc fuel
      → length (climb h fuel level) ≡ 1
  unfolding climb
  length-climb zero level h₁ h₂ = omega arith
  length-climb (suc fuel) level h₁ h₂ = elim (Bool-cases (ltb 1 (length level))) [
    | inl t ↦ rw t (
        length-climb fuel (pair_up h level) (omega (arith, length-pair_up level))
          (omega (arith, length-pair_up level)))
    | inr f ↦ rw f (omega (arith, ltb_false→le 1 (length level) f))
  ]

  root_of-eq_of_same :
      (xs ys : List Bytes)
      → Distinct xs
      → Distinct ys
      → SameElements xs ys
      → root_of h xs ≡ root_of h ys
  unfolding root_of
  root_of-eq_of_same [] [] dx dy same = refl
  root_of-eq_of_same [] (y ∷ ys) dx dy same = absurd ((same y).1 (inl refl))
  root_of-eq_of_same (x ∷ xs) [] dx dy same = absurd ((same x).0 (inl refl))
  root_of-eq_of_same (x ∷ xs) (y ∷ ys) dx dy same =
      let sorted = sort-eq_of_same bytes_le bytes_le-IsTotalOrder (x ∷ xs) (y ∷ ys) dx dy same in
      let size : length (x ∷ xs) ≡ length (y ∷ ys) =
        sym (length-sort bytes_le (x ∷ xs)) ∙ ap length sorted ∙ length-sort bytes_le (y ∷ ys) in
      λ i. get_or (climb h (size i) (sorted i)) 0 (replicate 32 0)

  -- Two sound digests that hold the same ids have one root, whatever order they were added in.
  pub root-eq_of_holds :
      (m n : MerkleLog)
      → IsSound m
      → IsSound n
      → ((id : Bytes) → holds m id ≡ holds n id)
      → root h m ≡ root h n
  unfolding root
  root-eq_of_holds m n sm sn same =
      root_of-eq_of_same m.leaves n.leaves sm.distinct sn.distinct (λ id. (
        λ p. (sn.leaf_iff id).1 (sym (same id) ∙ (sm.leaf_iff id).0 p),
        λ p. (sm.leaf_iff id).1 (same id ∙ (sn.leaf_iff id).0 p),
      ))
