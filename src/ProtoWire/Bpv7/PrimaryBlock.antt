-- ===== src/ProtoWire/Bpv7/PrimaryBlock.antt =====
-- `PrimaryBlock` of bebop2/proto-wire/src/bpv7.rs and its 88-byte encoding.
use open_bebop.Prelude.{ℕ, ◌++◌, length, take, drop, ◌==◌, Result, ok, guard, ◌>>◌}
use open_bebop.Prelude.Bytes.{Bytes, le_bytes, of_le_bytes, bytes_eq}

-- `WireError::Encode` with its messages; the first carries the length.
pub data DecodeError : Type 0 where
  primary_block_length : ℕ → DecodeError
  bundle_too_short custody_truncated payload_truncated : DecodeError

pub record PrimaryBlock : Type 0 where
  pub dest : Bytes
  pub source : Bytes
  pub creation_ts : ℕ
  pub lifetime : ℕ
  pub nonce : Bytes

-- `&b[off..off + n]`
abbrev pub slice : Bytes → ℕ → ℕ → Bytes
slice b off n = take n (drop off b)

unfoldable pub to_bytes : PrimaryBlock → Bytes
to_bytes p =
    p.dest ++ (p.source ++ (le_bytes 8 p.creation_ts ++ (le_bytes 8 p.lifetime ++ p.nonce)))

unfoldable pub from_bytes : Bytes → Result DecodeError PrimaryBlock
from_bytes b = do
  guard (length b == 88) (primary_block_length (length b))
  ok (record {
    dest = slice b 0 32;
    source = slice b 32 32;
    creation_ts = of_le_bytes (slice b 64 8);
    lifetime = of_le_bytes (slice b 72 8);
    nonce = slice b 80 8;
  })
