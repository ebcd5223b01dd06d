-- ===== src/ProtoWire/MerkleLog.antt =====
-- bebop2/proto-wire/src/sync_pull.rs, second part: the digest of the folded content-ids. `h` is
-- `sha3_256`; the loop of `root` runs on fuel, the number of leaves.
pub mod Root
pub mod Pins
use open_bebop.Prelude.{
  ℕ, zero, suc, Bool, List, [], ◌∷◌, ◌++◌, length, get_or, replicate, ltb, if◌then◌else◌, contains,
  insert,
}
use open_bebop.Prelude.Bytes.{Bytes, bytes_eq}
use open_bebop.Prelude.Sort.{sort}
use open_bebop.Prelude.ByteOrder.{bytes_le}

pub record MerkleLog : Type 0 where
  pub leaves : List Bytes
  pub seen : List Bytes

abbrev pub new : MerkleLog
new = record { leaves = []; seen = [] }

abbrev pub holds : MerkleLog → Bytes → Bool
holds m id = contains m.seen id

unfoldable pub add : Bytes → MerkleLog → MerkleLog
add id m =
    if contains m.seen id
    then m
    else record { leaves = m.leaves ++ (id ∷ []); seen = insert id m.seen }

module _ (h : Bytes → Bytes) where
  -- One level: the nodes two by two, an odd last one with itself.
  unfoldable pub pair_up : List Bytes → List Bytes
  pair_up [] = []
  pair_up (left ∷ []) = h (left ++ left) ∷ []
  pair_up (left ∷ right ∷ level) = h (left ++ right) ∷ pair_up level

  -- `while level.len() > 1`
  unfoldable pub climb : ℕ → List Bytes → List Bytes
  unfolding pair_up
  climb zero level = level
  climb (suc fuel) level =
      let next = climb fuel (pair_up level) in if ltb 1 (length level) then next else level

  unfoldable pub root_of : List Bytes → Bytes
  unfolding climb
  root_of [] = replicate 32 0
  root_of (leaf ∷ leaves) =
      get_or (climb (length (leaf ∷ leaves)) (sort bytes_le (leaf ∷ leaves))) 0 (replicate 32 0)

  unfoldable pub root : MerkleLog → Bytes
  unfolding root_of
  root m = root_of m.leaves
