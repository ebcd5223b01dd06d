-- ===== src/ProtoWire/MerkleLog/Pins.antt =====
-- What a root of bebop2/proto-wire/src/sync_pull.rs says of the leaves under it.
use open_bebop.Prelude.{
  ℕ, zero, suc, ◌≡◌, ◌↔◌, refl, ap, sym, ◌∙◌, subst, ◌⊎◌, inl, inr, true, List, [], ◌∷◌, ◌++◌,
  length, get_or, replicate, ltb, Elem, Bool-cases, arith, ◌≟◌, eq_of_≟, ne_of_≟, All,
  append-injective, head-injective, tail-injective,
}
use open_bebop.Prelude.Bytes.{Bytes, bytes_eq}
use open_bebop.Prelude.Sort.{sort, length-sort, sort-All}
use open_bebop.Prelude.Sort
use open_bebop.Prelude.ByteOrder.{bytes_le}
use open_bebop.Prelude.Ranking.{Elem-sort_to, Elem-sort_from}
use open_bebop.Crypto.{Collision}
use open_bebop.ProtoWire.MerkleLog.{MerkleLog, holds, pair_up, climb, root_of, root}
use open_bebop.ProtoWire.MerkleLog.Root.{IsSound, length-climb}

abbrev pub IsId : Bytes → Type 0
IsId id = length id ≡ 32

module _ (h : Bytes → Bytes) where
  hash-pins : (a b : Bytes) → h a ≡ h b → (a ≡ b) ⊎ Collision h
  hash-pins a b e = elim (Bool-cases (a ≟ b)) [
    | inl t ↦ inl (eq_of_≟ a b t)
    | inr n ↦ inr (record { left = a; right = b; differ = ne_of_≟ a b n; same_hash = e })
  ]

  node-pins :
      (a b x y : Bytes)
      → IsId a
      → IsId x
      → h (a ++ b) ≡ h (x ++ y)
      → ((a ≡ x) × (b ≡ y)) ⊎ Collision h
  node-pins a b x y ha hx e = elim (hash-pins (a ++ b) (x ++ y) e) [
    | inl p ↦ inl (append-injective a x b y (ha ∙ sym hx) p)
    | inr c ↦ inr c
  ]

  -- One level pins the level below it, of the same length.
  pair_up-pins :
      (xs ys : List Bytes)
      → All IsId xs
      → All IsId ys
      → length xs ≡ length ys
      → pair_up h xs ≡ pair_up h ys
      → (xs ≡ ys) ⊎ Collision h
  unfolding pair_up
  pair_up-pins [] [] ax ay l e = inl refl
  pair_up-pins [] (y ∷ ys) ax ay l e = absurd (omega arith)
  pair_up-pins (x ∷ xs) [] ax ay l e = absurd (omega arith)
  pair_up-pins (a ∷ []) (x ∷ []) ax ay l e = elim (node-pins a a x x ax.0 ay.0 (head-injective e)) [
    | inl p ↦ inl (ap (λ z. z ∷ []) p.0)
    | inr c ↦ inr c
  ]
  pair_up-pins (a ∷ []) (x ∷ y ∷ ys) ax ay l e = absurd (omega arith)
  pair_up-pins (a ∷ b ∷ xs) (x ∷ []) ax ay l e = absurd (omega arith)
  pair_up-pins (a ∷ b ∷ xs) (x ∷ y ∷ ys) ax ay l e =
      let ih = pair_up-pins xs ys ax.1.1 ay.1.1 (omega arith) (tail-injective e) in
      both (node-pins a b x y ax.0 ay.0 (head-injective e)) ih
    where
      both :
          ((a ≡ x) × (b ≡ y)) ⊎ Collision h
          → (xs ≡ ys) ⊎ Collision h
          → (a ∷ b ∷ xs ≡ x ∷ y ∷ ys) ⊎ Collision h
      both (inl p) (inl q) = inl (cc (p.0, p.1, q))
      both (inr c) q = inr c
      both (inl p) (inr c) = inr c

  module _ (width : (m : Bytes) → IsId (h m)) where
    pair_up-All : (xs : List Bytes) → All IsId (pair_up h xs)
    unfolding pair_up
    pair_up-All [] = tt
    pair_up-All (a ∷ []) = (width (a ++ a), tt)
    pair_up-All (a ∷ b ∷ xs) = (width (a ++ b), pair_up-All xs)

    length-pair_up_eq :
        (xs ys : List Bytes) → length xs ≡ length ys → length (pair_up h xs) ≡ length (pair_up h ys)
    unfolding pair_up
    length-pair_up_eq [] [] l = refl
    length-pair_up_eq [] (y ∷ ys) l = absurd (omega arith)
    length-pair_up_eq (x ∷ xs) [] l = absurd (omega arith)
    length-pair_up_eq (a ∷ []) (x ∷ []) l = refl
    length-pair_up_eq (a ∷ []) (x ∷ y ∷ ys) l = absurd (omega arith)
    length-pair_up_eq (a ∷ b ∷ xs) (x ∷ []) l = absurd (omega arith)
    length-pair_up_eq (a ∷ b ∷ xs) (x ∷ y ∷ ys) l = ap suc (length-pair_up_eq xs ys (omega arith))

    climb-pins :
        (fuel : ℕ) (xs ys : List Bytes)
        → All IsId xs
        → All IsId ys
        → length xs ≡ length ys
        → climb h fuel xs ≡ climb h fuel ys
        → (xs ≡ ys) ⊎ Collision h
    unfolding climb
    climb-pins zero xs ys ax ay l e = inl e
    climb-pins (suc fuel) xs ys ax ay l e = elim (Bool-cases (ltb 1 (length xs))) [
      | inl t ↦
          elim (climb-pins fuel (pair_up h xs) (pair_up h ys) (pair_up-All xs) (pair_up-All ys)
            (length-pair_up_eq xs ys l) (rw (t, sym (ap (ltb 1) l) ∙ t) at e)) [
              | inl p ↦ pair_up-pins xs ys ax ay l p
              | inr c ↦ inr c
            ]
      | inr f ↦ inl (rw (f, sym (ap (ltb 1) l) ∙ f) at e)
    ]

    only_node :
        (d : Bytes) (xs ys : List Bytes)
        → length xs ≡ 1
        → length ys ≡ 1
        → get_or xs 0 d ≡ get_or ys 0 d
        → xs ≡ ys
    only_node d [] ys lx ly e = absurd (omega arith)
    only_node d (x ∷ xs) [] lx ly e = absurd (omega arith)
    only_node d (x ∷ []) (y ∷ []) lx ly e = ap (λ z. z ∷ []) e
    only_node d (x ∷ []) (y ∷ z ∷ ys) lx ly e = absurd (omega arith)
    only_node d (x ∷ w ∷ xs) (y ∷ ys) lx ly e = absurd (omega arith)

    root_of-pins :
        (xs ys : List Bytes)
        → All IsId xs
        → All IsId ys
        → length xs ≡ length ys
        → root_of h xs ≡ root_of h ys
        → (sort bytes_le xs ≡ sort bytes_le ys) ⊎ Collision h
    unfolding root_of
    root_of-pins [] [] ax ay l e = inl refl
    root_of-pins [] (y ∷ ys) ax ay l e = absurd (omega arith)
    root_of-pins (x ∷ xs) [] ax ay l e = absurd (omega arith)
    root_of-pins (x ∷ xs) (y ∷ ys) ax ay l e =
        let n = length (x ∷ xs) in
        let sx = sort bytes_le (x ∷ xs) in
        let sy = sort bytes_le (y ∷ ys) in
        let lx = length-sort bytes_le (x ∷ xs) in
        let ly = length-sort bytes_le (y ∷ ys) in
        climb-pins n sx sy (sort-All bytes_le IsId (x ∷ xs) ax) (sort-All bytes_le IsId (y ∷ ys) ay)
          (lx ∙ l ∙ sym ly)
          (only_node (replicate 32 0) (climb h n sx) (climb h n sy)
            (length-climb h n sx (omega (arith, lx)) (omega (arith, lx)))
            (length-climb h n sy (omega (arith, ly, l)) (omega (arith, ly, l)))
            (e ∙ ap (λ k. get_or (climb h k sy) 0 (replicate 32 0)) (sym l)))

  sort-SameElements :
      (xs ys : List Bytes)
      → sort bytes_le xs ≡ sort bytes_le ys
      → (id : Bytes) → Elem id xs
      → Elem id ys
  sort-SameElements xs ys e id m =
      Elem-sort_to bytes_le id ys (subst (Elem id) e (Elem-sort_from bytes_le id xs m))

  -- Of two sound digests of one length, with ids of 32 bytes, one root means that they hold the
  -- same ids, or the hash shows a collision.
  pub root-pins :
      ((m : Bytes) → IsId (h m))
      → (m n : MerkleLog) → IsSound m
      → IsSound n
      → All IsId m.leaves
      → All IsId n.leaves
      → length m.leaves ≡ length n.leaves
      → root h m ≡ root h n
      → ((id : Bytes) → (holds m id ≡ true) ↔ (holds n id ≡ true)) ⊎ Collision h
  unfolding root
  root-pins width m n sm sn am an l e = elim (root_of-pins width m.leaves n.leaves am an l e) [
    | inl p ↦ inl (λ id. (
      λ t. (sn.leaf_iff id).0 (sort-SameElements m.leaves n.leaves p id ((sm.leaf_iff id).1 t)),
      λ t.
          (sm.leaf_iff id).0
            (sort-SameElements n.leaves m.leaves (sym p) id ((sn.leaf_iff id).1 t)),
    ))
    | inr c ↦ inr c
  ]

  -- A node is hashed like a leaf would be: the digest of that one leaf has the root of the two.
  pub root_of-node :
      (a b : Bytes) → bytes_le a b ≡ true → root_of h (h (a ++ b) ∷ []) ≡ root_of h (a ∷ b ∷ [])
  unfolding root_of climb pair_up Sort.sort Sort.insert_sorted
  root_of-node a b le = rw le refl
