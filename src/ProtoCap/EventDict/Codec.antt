-- ===== src/ProtoCap/EventDict/Codec.antt =====
-- bebop2/proto-cap/src/event_dict.rs: the fixed-layout payload encoders and their decoders, which
-- carry the source's position `p`. An `i64` is its 64-bit pattern, which `as` leaves alone. The test
-- `utf8` of the standard library is a parameter.
use open_bebop.Prelude.{
  ℕ, ◌+◌, ◌%◌, ◌^◌, Bool, List, [], ◌∷◌, ◌++◌, length, take, drop, leb, Result, ok, err, guard,
  ok_or, ◌>>=◌, ◌>>◌, get_or,
}
use open_bebop.Prelude.Bytes.{Bytes, le_bytes, of_le_bytes}
use open_bebop.ProtoCap.Scope.{
  Grant, order, claim, ledger, order_placed, order_status_changed, claim_offered, claim_accepted,
  claim_released, settlement_recorded,
}
use open_bebop.ProtoCap.EventDict.{
  DeliveryStatus, status_discriminant, status_from_discriminant, DictError, truncated_u64,
  truncated_str_len, truncated_str, bad_utf8, truncated_key, truncated_status, bad_from_status,
  bad_to_status, unsupported_scope,
}

pub record OrderPlacedPayload : Type 0 where
  pub order_id : ℕ
  pub amount : ℕ
  pub src : Bytes
  pub dst : Bytes

pub record ClaimPayload : Type 0 where
  pub claim_id : ℕ
  pub order_id : ℕ
  pub courier : Bytes

pub record LedgerPayload : Type 0 where
  pub order_id : ℕ
  pub amount : ℕ

pub record StatusChangedPayload : Type 0 where
  pub order_id : ℕ
  pub from : DeliveryStatus
  pub to : DeliveryStatus

abbrev pub put_u64 : ℕ → Bytes
put_u64 v = le_bytes 8 v

abbrev pub put_str : Bytes → Bytes
put_str s = le_bytes 4 (length s % 2 ^ 32) ++ s

unfoldable pub get_u64 : Bytes → ℕ → Result DictError (ℕ × ℕ)
get_u64 b p =
    guard (leb (p + 8) (length b)) truncated_u64 >> ok (of_le_bytes (take 8 (drop p b)), p + 8)

unfoldable pub get_str : (Bytes → Bool) → Bytes → ℕ → Result DictError (Bytes × ℕ)
get_str utf8 b p =
    let n = of_le_bytes (take 4 (drop p b)) in
    let s = take n (drop (p + 4) b) in
    guard (leb (p + 4) (length b)) truncated_str_len
    >> (guard (leb (p + 4 + n) (length b)) truncated_str
        >> (guard (utf8 s) bad_utf8 >> ok (s, p + 4 + n)))

unfoldable pub get_key : Bytes → ℕ → Result DictError (Bytes × ℕ)
get_key b p = guard (leb (p + 32) (length b)) truncated_key >> ok (take 32 (drop p b), p + 32)

unfoldable pub encode_placed : OrderPlacedPayload → Bytes
encode_placed v = put_u64 v.order_id ++ put_u64 v.amount ++ put_str v.src ++ put_str v.dst

unfoldable pub decode_placed : (Bytes → Bool) → Bytes → Result DictError OrderPlacedPayload
decode_placed utf8 b = do
  (order_id, p₁) ← get_u64 b 0
  (amount, p₂) ← get_u64 b p₁
  (src, p₃) ← get_str utf8 b p₂
  (dst, p₄) ← get_str utf8 b p₃
  ok (record { order_id = order_id; amount = amount; src = src; dst = dst })

unfoldable pub encode_claim : ClaimPayload → Bytes
encode_claim v = put_u64 v.claim_id ++ put_u64 v.order_id ++ v.courier

unfoldable pub decode_claim : Bytes → Result DictError ClaimPayload
decode_claim b = do
  (claim_id, p₁) ← get_u64 b 0
  (order_id, p₂) ← get_u64 b p₁
  (courier, p₃) ← get_key b p₂
  ok (record { claim_id = claim_id; order_id = order_id; courier = courier })

unfoldable pub encode_ledger : LedgerPayload → Bytes
encode_ledger v = put_u64 v.order_id ++ put_u64 v.amount

unfoldable pub decode_ledger : Bytes → Result DictError LedgerPayload
decode_ledger b = do
  (order_id, p₁) ← get_u64 b 0
  (amount, p₂) ← get_u64 b p₁
  ok (record { order_id = order_id; amount = amount })

unfoldable pub encode_status : StatusChangedPayload → Bytes
encode_status v = put_u64 v.order_id ++ status_discriminant v.from ∷ status_discriminant v.to ∷ []

unfoldable pub decode_status : Bytes → Result DictError StatusChangedPayload
decode_status b = do
  (order_id, p) ← get_u64 b 0
  guard (leb (p + 2) (length b)) truncated_status
  from ← ok_or (status_from_discriminant (get_or b p 0)) bad_from_status
  to ← ok_or (status_from_discriminant (get_or b (p + 1) 0)) bad_to_status
  ok (record { order_id = order_id; from = from; to = to })

pub data DeliveryEvent : Type 0 where
  order_placed_event : OrderPlacedPayload → DeliveryEvent
  status_changed_event : StatusChangedPayload → DeliveryEvent
  claim_event : ClaimPayload → DeliveryEvent
  settlement_event : LedgerPayload → DeliveryEvent

unfoldable pub decode_grant : (Bytes → Bool) → Grant → Bytes → Result DictError DeliveryEvent
decode_grant utf8 (order, order_placed) b = decode_placed utf8 b >>= λ v. ok (order_placed_event v)
decode_grant utf8 (order, order_status_changed) b =
    decode_status b >>= λ v. ok (status_changed_event v)
decode_grant utf8 (claim, claim_offered) b = decode_claim b >>= λ v. ok (claim_event v)
decode_grant utf8 (claim, claim_accepted) b = decode_claim b >>= λ v. ok (claim_event v)
decode_grant utf8 (claim, claim_released) b = decode_claim b >>= λ v. ok (claim_event v)
decode_grant utf8 (ledger, settlement_recorded) b = decode_ledger b >>= λ v. ok (settlement_event v)
decode_grant utf8 g b = err unsupported_scope

unfoldable pub decode_event : (Bytes → Bool) → List Grant → Bytes → Result DictError DeliveryEvent
unfolding decode_grant
decode_event utf8 [] b = err unsupported_scope
decode_event utf8 (g ∷ grants) b = decode_grant utf8 g b
