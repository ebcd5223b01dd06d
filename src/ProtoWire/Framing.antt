-- ===== src/ProtoWire/Framing.antt =====
-- bebop2/proto-wire/src/framing.rs and envelope.rs: envelopes on a byte stream, each with its
-- length in front. The JSON encoder and decoder are arguments; their messages are byte strings.
pub mod Laws
use open_bebop.Prelude.{
  ℕ, ◌+◌, ◌%◌, ◌^◌, Bool, true, false, not, Option, none, some, List, [], ◌∷◌, ◌++◌, length, take,
  drop, ltb, ◌==◌, if◌then◌else◌, Result, ok, err, guard, ◌>>=◌, ◌>>◌,
}
use open_bebop.Prelude.Bytes.{Bytes, le_bytes, of_le_bytes}
use open_bebop.Prelude.Slices.{slice}

pub record Envelope : Type 0 where
  pub version : ℕ
  pub trace : Bytes
  pub payload : Bytes

abbrev pub envelope_version : ℕ
envelope_version = 1

abbrev pub max_envelope_bytes : ℕ
max_envelope_bytes = 1048576

unfoldable pub new : Bytes → Bytes → Envelope
new trace payload = record { version = envelope_version; trace = trace; payload = payload }

-- The errors of `WireError` that framing gives.
pub data WireError : Type 0 where
  frame_too_large : ℕ → WireError
  version_mismatch : ℕ → WireError
  encode_error : Bytes → WireError

-- `serde_json::to_vec` and `serde_json::from_slice`, and the message of an envelope over the cap.
pub record Json : Type 0 where
  pub to_vec : Envelope → Result Bytes Bytes
  pub from_slice : Bytes → Result Bytes Envelope
  pub too_long : Bytes

-- `WireError::from`, at a `?`.
abbrev pub as_encode : {A : Type 0} → Result Bytes A → Result WireError A
as_encode (ok a) = ok a
as_encode (err message) = err (encode_error message)

module _ (json : Json) where
  unfoldable pub from_bytes : Bytes → Result Bytes Envelope
  from_bytes bytes =
      if ltb max_envelope_bytes (length bytes) then err json.too_long else json.from_slice bytes

  unfoldable pub encode : Envelope → Result WireError Bytes
  encode envelope = do
    body ← as_encode (json.to_vec envelope)
    guard (not (ltb max_envelope_bytes (length body))) (frame_too_large (length body))
    ok (le_bytes 4 (length body % 2 ^ 32) ++ body)

  -- The cursor moves only at the end.
  unfoldable pub take_off :
      ℕ → Bytes → Result WireError Envelope → Bytes × Result WireError (Option Envelope)
  take_off len buf (err e) = (buf, err e)
  take_off len buf (ok envelope) =
      if envelope.version == envelope_version
      then (drop (4 + len) buf, ok (some envelope))
      else (buf, err (version_mismatch envelope.version))

  unfoldable pub decode_body : ℕ → Bytes → Bytes × Result WireError (Option Envelope)
  unfolding from_bytes take_off
  decode_body len buf = take_off len buf (as_encode (from_bytes (slice 4 len buf)))

  unfoldable pub decode_len : ℕ → Bytes → Bytes × Result WireError (Option Envelope)
  unfolding decode_body
  decode_len len buf =
      if ltb max_envelope_bytes len
      then (buf, err (frame_too_large len))
      else if ltb (length buf) (4 + len)
      then (buf, ok none)
      else decode_body len buf

  -- The buffer after the call, and the result.
  unfoldable pub decode : Bytes → Bytes × Result WireError (Option Envelope)
  unfolding decode_len
  decode buf =
      if ltb (length buf) 4 then (buf, ok none) else decode_len (of_le_bytes (slice 0 4 buf)) buf
