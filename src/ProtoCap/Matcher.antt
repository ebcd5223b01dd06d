-- ===== src/ProtoCap/Matcher.antt =====
-- bebop2/proto-cap/src/matcher.rs: couriers ranked for an order by a hash that every node computes.
-- The texts of an order are not read, so an order is its id.
pub mod Laws
use Prim.Native.Nat.{bit_xor}
use open_bebop.Prelude.{
  ℕ, ◌*◌, ◌%◌, ◌^◌, min, Bool, Option, none, some, List, [], ◌∷◌, ◌++◌, map, length, take,
}
use open_bebop.Prelude.Bytes.{Bytes, le_bytes}
use open_bebop.Prelude.Sort.{sort}
use open_bebop.Prelude.ByteOrder.{bytes_le, heavier}

pub record Courier : Type 0 where
  pub pubkey : Bytes

-- The loop of `fnv1a` from the state `h`: a byte is mixed in, then the product wraps.
unfoldable pub fnv1a_from : ℕ → Bytes → ℕ
fnv1a_from h [] = h
fnv1a_from h (b ∷ bytes) = fnv1a_from (bit_xor h b * 0x100000001b3 % 2 ^ 64) bytes

unfoldable pub fnv1a : Bytes → ℕ
unfolding fnv1a_from
fnv1a bytes = fnv1a_from 0xcbf29ce484222325 bytes

unfoldable pub hrw_weight : ℕ → Bytes → ℕ
hrw_weight order_id courier = fnv1a (le_bytes 8 order_id ++ courier)

-- `b.0.cmp(&a.0).then_with(|| a.1.cmp(&b.1))` is not `Greater`.
abbrev pub ranks_before : ℕ × Bytes → ℕ × Bytes → Bool
ranks_before a b = heavier (λ (p : ℕ × Bytes). p.0) (λ x y. bytes_le x.1 y.1) a b

unfoldable pub weigh : ℕ → List Courier → List (ℕ × Bytes)
weigh order_id candidates = map (λ c. (hrw_weight order_id c.pubkey, c.pubkey)) candidates

unfoldable pub assign : ℕ → List Courier → ℕ → List Bytes
assign order_id candidates max =
    let ranked = sort ranks_before (weigh order_id candidates) in
    map (λ p. p.1) (take (min max (length ranked)) ranked)

abbrev pub first_of : List Bytes → Option Bytes
first_of [] = none
first_of (k ∷ ks) = some k

unfoldable pub primary_for : ℕ → List Courier → Option Bytes
primary_for order_id candidates = first_of (assign order_id candidates (length candidates))
