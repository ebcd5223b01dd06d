-- ===== src/ProtoCap/EventDict/Laws.antt =====
-- The payload codecs of bebop2/proto-cap/src/event_dict.rs.
use open_bebop.Prelude.{
  ℕ, ◌+◌, ◌≡◌, ◌<◌, ◌≤◌, ◌%◌, ◌^◌, refl, sym, ap, ◌∙◌, Bool, true, some, [], ◌∷◌, ◌++◌, length,
  take, drop, leb, ok, arith, length-drop, length-append, take-append, drop-append, drop-add,
  append_assoc, append-nil, ◌-◌, get_or, zero, suc,
}
use open_bebop.Prelude.Bytes.{Bytes, le_bytes, IsU64, length-le_bytes, of_le_bytes-le_bytes}
use open_bebop.ProtoCap.EventDict.{
  DeliveryStatus, pending, confirmed, preparing, ready, in_delivery, delivered, rejected, cancelled,
  picked_up, status_discriminant, status_from_discriminant,
}
use open_bebop.ProtoCap.EventDict.Codec.{
  OrderPlacedPayload, ClaimPayload, LedgerPayload, StatusChangedPayload, put_u64, put_str, get_u64,
  get_str, get_key, encode_placed, decode_placed, encode_claim, decode_claim, encode_ledger,
  decode_ledger, encode_status, decode_status,
}

le→leb : (a b : ℕ) → a ≤ b → leb a b ≡ true
le→leb a b h = ground arith

-- Where a field of `n` bytes stands at position `p`: the bounds test passes, the slice is the
-- field, and the rest follows.
field-at :
    (b field rest : Bytes) (p n : ℕ)
    → length field ≡ n
    → p ≤ length b
    → drop p b ≡ field ++ rest
    → (leb (p + n) (length b) ≡ true)
      × (take n (drop p b) ≡ field)
      × (drop (p + n) b ≡ rest)
      × (p + n ≤ length b)
field-at b field rest p n w q h =
    let total : length b - p ≡ n + length rest =
      sym (length-drop p b)
      ∙ ap length h
      ∙ length-append field rest
      ∙ ap (λ k. k + length rest) w in
    let inside : p + n ≤ length b = omega arith in
    (
      le→leb (p + n) (length b) inside,
      ap (take n) h ∙ take-append n field rest w,
      drop-add p n b ∙ ap (drop n) h ∙ drop-append n field rest w,
      inside,
    )

-- At a position where the bytes of a 64-bit number stand, `get_u64` reads it and moves past it.
get_u64-at :
    (b rest : Bytes) (p v : ℕ)
    → IsU64 v
    → p ≤ length b
    → drop p b ≡ put_u64 v ++ rest
    → (get_u64 b p ≡ ok (v, p + 8)) × (drop (p + 8) b ≡ rest) × (p + 8 ≤ length b)
unfolding get_u64
get_u64-at b rest p v u q h =
    let (test, slice, after, inside) = field-at b (put_u64 v) rest p 8 (length-le_bytes 8 v) q h in
    (rw (test, slice, of_le_bytes-le_bytes 8 v u) refl, after, inside)

get_key-at :
    (b key rest : Bytes) (p : ℕ)
    → length key ≡ 32
    → p ≤ length b
    → drop p b ≡ key ++ rest
    → (get_key b p ≡ ok (key, p + 32)) × (drop (p + 32) b ≡ rest) × (p + 32 ≤ length b)
unfolding get_key
get_key-at b key rest p w q h =
    let (test, slice, after, inside) = field-at b key rest p 32 w q h in
    (rw (test, slice) refl, after, inside)

get_str-at :
    (utf8 : Bytes → Bool) (b s rest : Bytes) (p : ℕ)
    → length s < 2 ^ 32
    → utf8 s ≡ true
    → p ≤ length b
    → drop p b ≡ put_str s ++ rest
    → (get_str utf8 b p ≡ ok (s, p + 4 + length s))
      × (drop (p + 4 + length s) b ≡ rest)
      × (p + 4 + length s ≤ length b)
unfolding get_str
get_str-at utf8 b s rest p w text q h =
    let small : length s % 2 ^ 32 ≡ length s = omega arith in
    let split : drop p b ≡ le_bytes 4 (length s) ++ (s ++ rest) =
      h ∙ rw small (append_assoc (le_bytes 4 (length s)) s rest) in
    let (test, slice, after, inside) =
      field-at b (le_bytes 4 (length s)) (s ++ rest) p 4 (length-le_bytes 4 (length s)) q split in
    let (test', slice', after', inside') = field-at b s rest (p + 4) (length s) refl inside after in
    (
      rw (test, slice, of_le_bytes-le_bytes 4 (length s) w, test', slice', text) refl,
      after',
      inside',
    )

-- Decoding an encoded settlement gives the payload back.
pub ledger-round_trip :
    (v : LedgerPayload) → IsU64 v.order_id → IsU64 v.amount → decode_ledger (encode_ledger v) ≡ ok v
unfolding encode_ledger decode_ledger
ledger-round_trip v i a =
    let b = encode_ledger v in
    let (g₁, r₁, q₁) = get_u64-at b (put_u64 v.amount) 0 v.order_id i (omega arith) refl in
    let (g₂, r₂, q₂) = get_u64-at b [] 8 v.amount a q₁ (r₁ ∙ sym (append-nil (put_u64 v.amount))) in
    rw (g₁, g₂) refl

-- Decoding an encoded claim gives the payload back.
pub claim-round_trip :
    (v : ClaimPayload)
    → IsU64 v.claim_id
    → IsU64 v.order_id
    → length v.courier ≡ 32
    → decode_claim (encode_claim v) ≡ ok v
unfolding encode_claim decode_claim le_bytes
claim-round_trip v i o w =
    let b = encode_claim v in
    let (g₁, r₁, q₁) =
      get_u64-at b (put_u64 v.order_id ++ v.courier) 0 v.claim_id i (omega arith) refl in
    let (g₂, r₂, q₂) = get_u64-at b v.courier 8 v.order_id o q₁ r₁ in
    let (g₃, r₃, q₃) = get_key-at b v.courier [] 16 w q₂ (r₂ ∙ sym (append-nil v.courier)) in
    rw (g₁, g₂, g₃) refl

-- Decoding an encoded order gives the payload back, for 64-bit numbers and for valid UTF-8 texts
-- shorter than 2 ^ 32 bytes.
pub placed-round_trip :
    (utf8 : Bytes → Bool) (v : OrderPlacedPayload)
    → IsU64 v.order_id
    → IsU64 v.amount
    → (length v.src < 2 ^ 32) × (utf8 v.src ≡ true)
    → (length v.dst < 2 ^ 32) × (utf8 v.dst ≡ true)
    → decode_placed utf8 (encode_placed v) ≡ ok v
unfolding encode_placed decode_placed le_bytes
placed-round_trip utf8 v i a (ws, us) (wd, ud) =
    let b = encode_placed v in
    let (g₁, r₁, q₁) =
      get_u64-at b (put_u64 v.amount ++ (put_str v.src ++ put_str v.dst)) 0 v.order_id i
        (omega arith) refl in
    let (g₂, r₂, q₂) = get_u64-at b (put_str v.src ++ put_str v.dst) 8 v.amount a q₁ r₁ in
    let (g₃, r₃, q₃) = get_str-at utf8 b v.src (put_str v.dst) 16 ws us q₂ r₂ in
    let (g₄, r₄, q₄) =
      get_str-at utf8 b v.dst [] (20 + length v.src) wd ud q₃
        (r₃ ∙ sym (append-nil (put_str v.dst))) in
    rw (g₁, g₂, g₃, g₄) refl

status-round_trip : (s : DeliveryStatus) → status_from_discriminant (status_discriminant s) ≡ some s
unfolding status_from_discriminant status_discriminant
status-round_trip pending = refl
status-round_trip confirmed = refl
status-round_trip preparing = refl
status-round_trip ready = refl
status-round_trip in_delivery = refl
status-round_trip delivered = refl
status-round_trip rejected = refl
status-round_trip cancelled = refl
status-round_trip picked_up = refl

get_or-drop : (b : Bytes) (p j : ℕ) → get_or b (p + j) 0 ≡ get_or (drop p b) j 0
get_or-drop b zero j = let e : 0 + j ≡ j = omega arith in ap (λ k. get_or b k 0) e
get_or-drop [] (suc p) j = refl
get_or-drop (x ∷ b) (suc p) j =
    let e : suc p + j ≡ suc (p + j) = omega arith in
    ap (λ k. get_or (x ∷ b) k 0) e ∙ get_or-drop b p j

two_bytes :
    (b : Bytes) (p x y : ℕ) → drop p b ≡ x ∷ y ∷ [] → (get_or b p 0 ≡ x) × (get_or b (p + 1) 0 ≡ y)
two_bytes b p x y h =
    let base : p + 0 ≡ p = omega arith in
    (
      ap (λ k. get_or b k 0) (sym base) ∙ get_or-drop b p 0 ∙ ap (λ l. get_or l 0 0) h,
      get_or-drop b p 1 ∙ ap (λ l. get_or l 1 0) h,
    )

-- Decoding an encoded status change with a 64-bit order id gives the payload back.
pub status_changed-round_trip :
    (v : StatusChangedPayload) → IsU64 v.order_id → decode_status (encode_status v) ≡ ok v
unfolding encode_status decode_status
status_changed-round_trip v i =
    let b = encode_status v in
    let ends = status_discriminant v.from ∷ status_discriminant v.to ∷ [] in
    let (g₁, r₁, q₁) = get_u64-at b ends 0 v.order_id i (omega arith) refl in
    let (test, slice, after, inside) =
      field-at b ends [] 8 2 refl q₁ (r₁ ∙ sym (append-nil ends)) in
    let (x, y) = two_bytes b 8 (status_discriminant v.from) (status_discriminant v.to) r₁ in
    rw (g₁, test, x, y, status-round_trip v.from, status-round_trip v.to) refl
