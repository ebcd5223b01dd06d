-- ===== src/ProtoWire/Bpv7/Bundle.antt =====
-- `Bundle` of bebop2/proto-wire/src/bpv7.rs and its length-prefixed encoding.
use open_bebop.Prelude.{
  ◌+◌, ◌%◌, ◌^◌, not, Option, none, some, [], ◌++◌, length, take, ltb, if◌then◌else◌, Result, ok,
  guard, ◌>>=◌, ◌>>◌,
}
use open_bebop.Prelude.Bytes.{Bytes, le_bytes, of_le_bytes, bytes_eq}
use open_bebop.ProtoWire.Bpv7.PrimaryBlock.{
  PrimaryBlock, DecodeError, bundle_too_short, custody_truncated, payload_truncated, slice,
}
use open_bebop.ProtoWire.Bpv7.PrimaryBlock

pub record Bundle : Type 0 where
  pub primary : PrimaryBlock
  pub custody_sig : Option Bytes
  pub payload : Bytes

-- `custody_sig.as_deref().unwrap_or(&[])`
abbrev pub custody_bytes : Option Bytes → Bytes
custody_bytes none = []
custody_bytes (some sig) = sig

unfoldable pub to_bytes : Bundle → Bytes
unfolding PrimaryBlock.to_bytes
to_bytes b =
    let cs = custody_bytes b.custody_sig in
    PrimaryBlock.to_bytes b.primary
    ++ (le_bytes 4 (length cs % 2 ^ 32)
        ++ (cs ++ (le_bytes 4 (length b.payload % 2 ^ 32) ++ b.payload)))

unfoldable pub from_bytes : Bytes → Result DecodeError Bundle
unfolding PrimaryBlock.from_bytes
from_bytes b = do
  guard (not (ltb (length b) (88 + 4 + 4))) bundle_too_short
  primary ← PrimaryBlock.from_bytes (take 88 b)
  let cs_len = of_le_bytes (slice b 88 4)
  guard (not (ltb (length b) (92 + cs_len + 4))) custody_truncated
  let pl_len = of_le_bytes (slice b (92 + cs_len) 4)
  guard (not (ltb (length b) (92 + cs_len + 4 + pl_len))) payload_truncated
  ok (record {
    primary = primary;
    custody_sig = if ltb 0 cs_len then some (slice b 92 cs_len) else none;
    payload = slice b (92 + cs_len + 4) pl_len;
  })
