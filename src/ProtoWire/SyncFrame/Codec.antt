-- ===== src/ProtoWire/SyncFrame/Codec.antt =====
-- The decoder of bebop2/proto-wire/src/sync_pull.rs: what it accepts.
use open_bebop.Prelude.{
  ℕ, suc, ◌+◌, ◌%◌, ◌^◌, ◌≤◌, ◌≡◌, refl, ap, sym, ◌∙◌, ◌↔◌, not, ◌∷◌, ◌++◌, length, drop, get_or,
  ltb, ok, guard, guard-eq-ok, >>=-eq-ok, All, arith, ok_or,
}
use open_bebop.Prelude.Bytes.{
  Bytes, IsByte, IsArray, le_bytes, of_le_bytes, le_bytes-of_le_bytes, of_le_bytes-lt, bytes_eq,
}
use open_bebop.Prelude.Slices.{slice, slice-append-drop, length-slice, drop-get_or, All-slice}
use open_bebop.ProtoWire.SyncFrame.{
  SyncFrame, bad_payload, pull_scope, to_tlv_bytes, from_tlv_bytes, sig_bytes, to_wire_bytes,
  from_wire_bytes, read_sig,
}
use open_bebop.ProtoWire.SyncFrame.Image.{
  IsWire, ok-injective, ok_or-eq-ok, from_tlv-inverse, not_short_of, sig_bytes-read_sig,
  from_wire_bytes-to_wire_bytes,
}

-- What a successful parse has checked.
record Parsed (b : Bytes) (f : SyncFrame) : Type 0 where
  size : ℕ
  size_eq : of_le_bytes (slice 106 4 b) ≡ size
  long : 110 + size + 1 ≤ length b
  small : size ≤ 1048576
  tag : slice 0 2 b ≡ to_tlv_bytes pull_scope
  scope : f.scope ≡ pull_scope
  content_id : f.content_id ≡ slice 2 32 b
  prev : f.prev ≡ slice 34 32 b
  actor : f.actor ≡ slice 66 32 b
  seq : f.seq ≡ of_le_bytes (slice 98 8 b)
  payload : f.payload ≡ slice 110 size b
  sig : read_sig (get_or b (110 + size) 0) (110 + size + 1) b ≡ ok f.sig

parsed : (b : Bytes) (f : SyncFrame) → from_wire_bytes b ≡ ok f → Parsed b f
unfolding from_wire_bytes
parsed b f h =
    let (u₁, head, h₁) = >>=-eq-ok (guard (not (ltb (length b) 110)) bad_payload) _ h in
    let (scope, es, h₂) = >>=-eq-ok (ok_or (from_tlv_bytes (slice 0 2 b)) bad_payload) _ h₁ in
    let n : ℕ = of_le_bytes (slice 106 4 b) in
    let (u₂, small, h₃) = >>=-eq-ok (guard (not (ltb 1048576 n)) bad_payload) _ h₂ in
    let (u₃, long, h₄) = >>=-eq-ok (guard (not (ltb (length b) (110 + n + 1))) bad_payload) _ h₃ in
    let (sig, eg, h₅) = >>=-eq-ok (read_sig (get_or b (110 + n) 0) (110 + n + 1) b) _ h₄ in
    let e = ok-injective h₅ in
    let (is_pull, tag) = from_tlv-inverse (slice 0 2 b) scope (ok_or-eq-ok _ bad_payload es) in
    record {
      size = n;
      size_eq = refl;
      long = not_short_of _ _ (guard-eq-ok _ bad_payload long);
      small = not_short_of _ _ (guard-eq-ok _ bad_payload small);
      tag = tag;
      scope = sym (ap (λ (g : SyncFrame). g.scope) e) ∙ is_pull;
      content_id = sym (ap (λ (g : SyncFrame). g.content_id) e);
      prev = sym (ap (λ (g : SyncFrame). g.prev) e);
      actor = sym (ap (λ (g : SyncFrame). g.actor) e);
      seq = sym (ap (λ (g : SyncFrame). g.seq) e);
      payload = sym (ap (λ (g : SyncFrame). g.payload) e);
      sig = eg ∙ ap ok (ap (λ (g : SyncFrame). g.sig) e);
    }

join_slice : (b x r : Bytes) (o n : ℕ) → x ≡ slice o n b → r ≡ drop (o + n) b → x ++ r ≡ drop o b
join_slice b x r o n ex er = rw (ex, er) (slice-append-drop o n b)

parsed-IsArray :
    (b x : Bytes) (o n : ℕ) → All IsByte b → o + n ≤ length b → x ≡ slice o n b → IsArray n x
parsed-IsArray b x o n bytes h e = rw e (length-slice o n b h, All-slice IsByte o n b bytes)

Parsed-IsWire : (b : Bytes) (f : SyncFrame) → All IsByte b → Parsed b f → IsWire f
Parsed-IsWire b f bytes p =
    let body = parsed-IsArray b f.payload 110 p.size bytes (omega (arith, p.long)) p.payload in
    record {
      scope = p.scope;
      content_id = parsed-IsArray b f.content_id 2 32 bytes (omega (arith, p.long)) p.content_id;
      prev = parsed-IsArray b f.prev 34 32 bytes (omega (arith, p.long)) p.prev;
      actor = parsed-IsArray b f.actor 66 32 bytes (omega (arith, p.long)) p.actor;
      seq = rw p.seq (
          of_le_bytes-lt 8 (slice 98 8 b)
            (parsed-IsArray b _ 98 8 bytes (omega (arith, p.long)) refl));
      payload = body.1;
      payload_size = omega (arith, body.0, p.small);
      sig =
          (sig_bytes-read_sig b (110 + p.size + 1) (get_or b (110 + p.size) 0) f.sig bytes p.sig).1;
    }

encode-decode : (b : Bytes) (f : SyncFrame) → All IsByte b → Parsed b f → to_wire_bytes f ≡ b
unfolding to_wire_bytes
encode-decode b f bytes p =
    let n = p.size in
    let size_array = parsed-IsArray b (slice 106 4 b) 106 4 bytes (omega (arith, p.long)) refl in
    let len : length f.payload ≡ n =
      (parsed-IsArray b f.payload 110 n bytes (omega (arith, p.long)) p.payload).0 in
    let low : length f.payload % 2 ^ 32 ≡ n = omega (arith, len, p.small) in
    let size : le_bytes 4 (length f.payload % 2 ^ 32) ≡ slice 106 4 b =
      ap (le_bytes 4) (low ∙ sym p.size_eq) ∙ le_bytes-of_le_bytes 4 (slice 106 4 b) size_array in
    let seq : le_bytes 8 f.seq ≡ slice 98 8 b =
      ap (le_bytes 8) p.seq
      ∙ le_bytes-of_le_bytes 8 (slice 98 8 b)
          (parsed-IsArray b _ 98 8 bytes (omega (arith, p.long)) refl) in
    let q₇ : sig_bytes f.sig ≡ drop (110 + n) b =
      (sig_bytes-read_sig b (110 + n + 1) (get_or b (110 + n) 0) f.sig bytes p.sig).0
      ∙ (let e : 110 + n + 1 ≡ suc (110 + n) = omega arith in
          ap (λ k. get_or b (110 + n) 0 ∷ drop k b) e)
      ∙ sym (drop-get_or b (110 + n) 0 (omega (arith, p.long))) in
    let q₆ = join_slice b f.payload (sig_bytes f.sig) 110 n p.payload q₇ in
    let q₅ = join_slice b _ _ 106 4 size q₆ in
    let q₄ = join_slice b _ _ 98 8 seq q₅ in
    let q₃ = join_slice b f.actor _ 66 32 p.actor q₄ in
    let q₂ = join_slice b f.prev _ 34 32 p.prev q₃ in
    let q₁ = join_slice b f.content_id _ 2 32 p.content_id q₂ in
    join_slice b (to_tlv_bytes f.scope) _ 0 2 (ap to_tlv_bytes p.scope ∙ sym p.tag) q₁

-- Of byte strings the decoder accepts exactly the wire images, each for the one frame whose image
-- it is: a frame of the widths of the Rust types, of the pull scope, with a payload within the
-- bound and no signature or one of 64 bytes.
pub from_wire_bytes_iff :
    (b : Bytes) (f : SyncFrame)
    → All IsByte b
    → (from_wire_bytes b ≡ ok f) ↔ (IsWire f × (to_wire_bytes f ≡ b))
from_wire_bytes_iff b f bytes = (
  λ h. (Parsed-IsWire b f bytes (parsed b f h), encode-decode b f bytes (parsed b f h)),
  λ h. sym (ap from_wire_bytes h.1) ∙ from_wire_bytes-to_wire_bytes f h.0,
)
