-- ===== src/Prelude/ByteOrder.antt =====
-- The orders of byte arrays, and of numbers with a byte array to break ties.
use Prim.Native.Nat.{ℕ}
use mathlib.Core.Path.{◌≡◌, refl}
use mathlib.Core.Bool.{Bool, true, false}
use mathlib.Core.List.{[], ◌∷◌}
use native.Mathlib.Omega.{arith}
use open_bebop.Prelude.Tests.{ltb, ◌==◌, if◌then◌else◌}
use open_bebop.Prelude.Bytes.{Bytes}
use open_bebop.Prelude.Ranking.{IsTotalOrder}

-- The order of `[u8; 32]`: lexicographic.
unfoldable pub bytes_le : Bytes → Bytes → Bool
bytes_le [] ys = true
bytes_le (x ∷ xs) [] = false
bytes_le (x ∷ xs) (y ∷ ys) = if ltb x y then true else (if x == y then bytes_le xs ys else false)

bytes_le-total : (xs ys : Bytes) → bytes_le xs ys ≡ false → bytes_le ys xs ≡ true
unfolding bytes_le
bytes_le-total [] ys h = cc
bytes_le-total (x ∷ xs) [] h = refl
bytes_le-total (x ∷ xs) (y ∷ ys) h = ground (arith, bytes_le-total xs ys)

bytes_le_trans :
    (xs ys zs : Bytes) → bytes_le xs ys ≡ true → bytes_le ys zs ≡ true → bytes_le xs zs ≡ true
unfolding bytes_le
bytes_le_trans [] ys zs h k = refl
bytes_le_trans (x ∷ xs) [] zs h k = cc
bytes_le_trans (x ∷ xs) (y ∷ ys) [] h k = cc
bytes_le_trans (x ∷ xs) (y ∷ ys) (z ∷ zs) h k = ground (arith, bytes_le_trans xs ys zs)

bytes_le_antisymm : (xs ys : Bytes) → bytes_le xs ys ≡ true → bytes_le ys xs ≡ true → xs ≡ ys
unfolding bytes_le
bytes_le_antisymm [] [] h k = refl
bytes_le_antisymm [] (y ∷ ys) h k = cc
bytes_le_antisymm (x ∷ xs) [] h k = cc
bytes_le_antisymm (x ∷ xs) (y ∷ ys) h k = ground (arith, bytes_le_antisymm xs ys)

pub bytes_le-IsTotalOrder : IsTotalOrder bytes_le
bytes_le-IsTotalOrder = record {
  total = bytes_le-total;
  trans = bytes_le_trans;
  antisymm = bytes_le_antisymm;
}

-- `a.cmp(&b)` turned round.
abbrev pub flip : {A : Type 0} → (A → A → Bool) → A → A → Bool
flip le a b = le b a

pub flip-IsTotalOrder : {A : Type 0} (le : A → A → Bool) → IsTotalOrder le → IsTotalOrder (flip le)
flip-IsTotalOrder le o = record {
  total = λ a b h. o.total b a h;
  trans = λ a b c h k. o.trans c b a k h;
  antisymm = λ a b h k. o.antisymm a b k h;
}

-- `b.0.cmp(&a.0).then_with(…)`: the greater weight first, ties by `le`.
module _ {A : Type 0} (weight : A → ℕ) (le : A → A → Bool) where
  abbrev pub heavier : A → A → Bool
  heavier a b =
      if ltb (weight b) (weight a) then true else (if weight b == weight a then le a b else false)

  pub heavier-IsTotalOrder : IsTotalOrder le → IsTotalOrder heavier
  heavier-IsTotalOrder o = record {
    total = λ a b h. ground (arith, o.total a b);
    trans = λ a b c h k. ground (arith, o.trans a b c);
    antisymm = λ a b h k. ground (arith, o.antisymm a b);
  }
