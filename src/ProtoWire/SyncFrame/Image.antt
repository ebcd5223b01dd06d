-- ===== src/ProtoWire/SyncFrame/Image.antt =====
-- The wire image of a frame of bebop2/proto-wire/src/sync_pull.rs, and its decoding.
use open_bebop.Prelude.{
  ℕ, ◌+◌, ◌%◌, ◌^◌, ◌≤◌, ◌≡◌, refl, ap, sym, ◌∙◌, true, not, Option, none, some, [], ◌∷◌, ◌++◌,
  length, length-append, drop-ge, subst, drop, get_or, ltb, le→ltb, ◌==◌, ==_iff, ◌≟◌, eq_of_≟,
  ≟-refl, Result, ok, All, arith, Bool-cases, ok_or, inl, inr,
}
use open_bebop.Prelude.Bytes.{
  Bytes, IsByte, IsU64, IsArray, le_bytes, of_le_bytes, length-le_bytes, of_le_bytes-le_bytes,
  bytes_eq,
}
use open_bebop.Prelude.Slices.{
  slice, drop-next, slice-next, slice-rest, length-slice, get_or-drop, All-slice,
}
use open_bebop.ProtoWire.SyncFrame.{
  SyncScope, SyncFrame, SyncReject, pull_scope, to_tlv_bytes, from_tlv_bytes, sig_bytes,
  to_wire_bytes, from_wire_bytes, read_sig,
}

abbrev pub SigFits : Option Bytes → Type 0
SigFits none = Unit {0}
SigFits (some s) = IsArray 64 s

-- The frames that have a wire image: the widths of the Rust types, a payload within the bound, a
-- signature of 64 bytes where there is one, and the one scope.
pub record IsWire (f : SyncFrame) : Type 0 where
  pub scope : f.scope ≡ pull_scope
  pub content_id : IsArray 32 f.content_id
  pub prev : IsArray 32 f.prev
  pub actor : IsArray 32 f.actor
  pub seq : IsU64 f.seq
  pub payload : All IsByte f.payload
  pub payload_size : length f.payload ≤ 1048576
  pub sig : SigFits f.sig

pub ok-injective : {A : Type 0} {a b : A} → ◌≡◌ {A = Result SyncReject A} (ok a) (ok b) → a ≡ b
ok-injective e = cc e

-- The signature and its flag, at the end of the text.
read_sig-sig_bytes :
    (b : Bytes) (o : ℕ) (sig : Option Bytes)
    → SigFits sig
    → drop o b ≡ sig_bytes sig
    → length b ≡ o + length (sig_bytes sig)
    → read_sig (get_or b o 0) (o + 1) b ≡ ok sig
unfolding read_sig sig_bytes
read_sig-sig_bytes b o none fits e l =
    rw (get_or-drop b o 0 0 [] e, (==_iff (length b) (o + 1)).1 (omega arith)) refl
read_sig-sig_bytes b o (some s) fits e l =
    let width : length b ≡ o + 1 + 64 = omega (arith, fits.0) in
    rw
      (
        get_or-drop b o 0 1 s e,
        (==_iff (length b) (o + 1 + 64)).1 width,
        slice-rest (o + 1) 64 b width,
        drop-next b (1 ∷ []) s o 1 e refl,
      )
      refl

pub sig_bytes-read_sig :
    (b : Bytes) (o flag : ℕ) (sig : Option Bytes)
    → All IsByte b
    → read_sig flag o b ≡ ok sig
    → (sig_bytes sig ≡ flag ∷ drop o b) × SigFits sig
unfolding read_sig sig_bytes
sig_bytes-read_sig b o flag sig bytes e = elim (Bool-cases (flag == 0)) [
  | inl f0 ↦ elim (Bool-cases (length b == o)) [
    | inl w ↦
        let width = (==_iff (length b) o).0 w in
        subst (λ (s : Option Bytes). (sig_bytes s ≡ flag ∷ drop o b) × SigFits s)
          (ok-injective (rw (f0, w) at e))
          (rw ((==_iff flag 0).0 f0, drop-ge b o (omega arith)) refl, tt)
    | inr w ↦ absurd (cc (rw (f0, w) at e))
  ]
  | inr f0 ↦ elim (Bool-cases (flag == 1)) [
    | inl f1 ↦ elim (Bool-cases (length b == o + 64)) [
      | inl w ↦
          let width = (==_iff (length b) (o + 64)).0 w in
          subst (λ (s : Option Bytes). (sig_bytes s ≡ flag ∷ drop o b) × SigFits s)
            (ok-injective (rw (f0, f1, w) at e))
            (
              rw ((==_iff flag 1).0 f1, slice-rest o 64 b width) refl,
              (length-slice o 64 b (omega arith), All-slice IsByte o 64 b bytes),
            )
      | inr w ↦ absurd (cc (rw (f0, f1, w) at e))
    ]
    | inr f1 ↦ absurd (cc (rw (f0, f1) at e))
  ]
]

not_short : (a b : ℕ) → b ≤ a → not (ltb a b) ≡ true
not_short a b h = rw (le→ltb a b h)

pub not_short_of : (a b : ℕ) → not (ltb a b) ≡ true → b ≤ a
not_short_of a b h = ground arith

from_tlv-pull : from_tlv_bytes (to_tlv_bytes pull_scope) ≡ some pull_scope
unfolding from_tlv_bytes
from_tlv-pull = rw (≟-refl (to_tlv_bytes pull_scope))

pub from_tlv-inverse :
    (b : Bytes) (s : SyncScope)
    → from_tlv_bytes b ≡ some s
    → (s ≡ pull_scope) × (b ≡ to_tlv_bytes pull_scope)
unfolding from_tlv_bytes
from_tlv-inverse b s e = elim (Bool-cases (b ≟ to_tlv_bytes pull_scope)) [
  | inl t ↦ (cc (rw t at e), eq_of_≟ b (to_tlv_bytes pull_scope) t)
  | inr n ↦ absurd (cc (rw n at e))
]

pub ok_or-eq-ok :
    {A : Type 0} (o : Option A) (e : SyncReject) {a : A} → ok_or o e ≡ ok a → o ≡ some a
ok_or-eq-ok none e h = absurd (cc h)
ok_or-eq-ok (some x) e h = ap some (ok-injective h)

pub length-to_wire_bytes :
    (f : SyncFrame)
    → IsWire f
    → length (to_wire_bytes f) ≡ 110 + length f.payload + length (sig_bytes f.sig)
unfolding to_wire_bytes
length-to_wire_bytes f w =
    let size = le_bytes 4 (length f.payload % 2 ^ 32) in
    let t₆ = f.payload ++ sig_bytes f.sig in
    let t₄ = le_bytes 8 f.seq ++ (size ++ t₆) in
    omega (
      arith,
      length-append f.content_id (f.prev ++ (f.actor ++ t₄)),
      length-append f.prev (f.actor ++ t₄),
      length-append f.actor t₄,
      length-append (le_bytes 8 f.seq) (size ++ t₆),
      length-append size t₆,
      length-append f.payload (sig_bytes f.sig),
      length-le_bytes 8 f.seq,
      length-le_bytes 4 (length f.payload % 2 ^ 32),
      w.content_id.0,
      w.prev.0,
      w.actor.0,
    )

sig_bytes_positive : (sig : Option Bytes) → 1 ≤ length (sig_bytes sig)
unfolding sig_bytes
sig_bytes_positive none = omega arith
sig_bytes_positive (some s) = omega arith

-- The parse of a text whose parts are known.
parse_parts :
    (b : Bytes) (scope : SyncScope) (n : ℕ) (payload : Bytes) (sig : Option Bytes)
    → 110 + n + 1 ≤ length b
    → n ≤ 1048576
    → from_tlv_bytes (slice 0 2 b) ≡ some scope
    → of_le_bytes (slice 106 4 b) ≡ n
    → slice 110 n b ≡ payload
    → read_sig (get_or b (110 + n) 0) (110 + n + 1) b ≡ ok sig
    → from_wire_bytes b
      ≡ ok (record {
        scope = scope;
        content_id = slice 2 32 b;
        prev = slice 34 32 b;
        actor = slice 66 32 b;
        seq = of_le_bytes (slice 98 8 b);
        payload = payload;
        sig = sig;
      })
unfolding from_wire_bytes
parse_parts b scope n payload sig long small es en ep eg =
    rw (not_short (length b) 110 (omega arith), es, en)
      (rw (not_short 1048576 n small, not_short (length b) (110 + n + 1) long, ep) (rw eg refl))

-- Decoding the image.
pub from_wire_bytes-to_wire_bytes :
    (f : SyncFrame) → IsWire f → from_wire_bytes (to_wire_bytes f) ≡ ok f
from_wire_bytes-to_wire_bytes f w =
    let b = to_wire_bytes f in
    let n = length f.payload in
    let seq = le_bytes 8 f.seq in
    let size = le_bytes 4 (n % 2 ^ 32) in
    let t₆ = f.payload ++ sig_bytes f.sig in
    let t₅ = size ++ t₆ in
    let t₄ = seq ++ t₅ in
    let t₃ = f.actor ++ t₄ in
    let t₂ = f.prev ++ t₃ in
    let t₁ = f.content_id ++ t₂ in
    let r₀ : drop 0 b ≡ to_tlv_bytes f.scope ++ t₁ = unfold to_wire_bytes in refl in
    let r₁ = drop-next b (to_tlv_bytes f.scope) t₁ 0 2 r₀ refl in
    let r₂ = drop-next b f.content_id t₂ 2 32 r₁ w.content_id.0 in
    let r₃ = drop-next b f.prev t₃ 34 32 r₂ w.prev.0 in
    let r₄ = drop-next b f.actor t₄ 66 32 r₃ w.actor.0 in
    let r₅ = drop-next b seq t₅ 98 8 r₄ (length-le_bytes 8 f.seq) in
    let r₆ = drop-next b size t₆ 106 4 r₅ (length-le_bytes 4 (n % 2 ^ 32)) in
    let r₇ = drop-next b f.payload (sig_bytes f.sig) 110 n r₆ refl in
    let declared : of_le_bytes (slice 106 4 b) ≡ n =
      ap of_le_bytes (slice-next b size t₆ 106 4 r₅ (length-le_bytes 4 (n % 2 ^ 32)))
      ∙ of_le_bytes-le_bytes 4 (n % 2 ^ 32) (omega arith)
      ∙ (let z : n % 2 ^ 32 ≡ n = omega (arith, w.payload_size) in z) in
    let number : of_le_bytes (slice 98 8 b) ≡ f.seq =
      ap of_le_bytes (slice-next b seq t₅ 98 8 r₄ (length-le_bytes 8 f.seq))
      ∙ of_le_bytes-le_bytes 8 f.seq w.seq in
    let long : length b ≡ 110 + n + length (sig_bytes f.sig) = length-to_wire_bytes f w in
    parse_parts b f.scope n f.payload f.sig (omega (arith, long, sig_bytes_positive f.sig))
      w.payload_size
      (ap from_tlv_bytes (slice-next b (to_tlv_bytes f.scope) t₁ 0 2 r₀ refl)
        ∙ ap (λ (s : SyncScope). from_tlv_bytes (to_tlv_bytes s)) w.scope
        ∙ from_tlv-pull
        ∙ ap some (sym w.scope))
      declared (slice-next b f.payload (sig_bytes f.sig) 110 n r₆ refl)
      (read_sig-sig_bytes b (110 + n) f.sig w.sig r₇ long)
    ∙ (λ i. ok (record f {
      content_id = slice-next b f.content_id t₂ 2 32 r₁ w.content_id.0 i;
      prev = slice-next b f.prev t₃ 34 32 r₂ w.prev.0 i;
      actor = slice-next b f.actor t₄ 66 32 r₃ w.actor.0 i;
      seq = number i;
    }))
