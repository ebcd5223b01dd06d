-- ===== src/ProtoWire/Bpv7/Codec.antt =====
-- Encoding and decoding of primary blocks and bundles of bebop2/proto-wire/src/bpv7.rs.
use open_bebop.Prelude.{
  ℕ, ◌+◌, ◌%◌, ◌^◌, ◌≤◌, ◌≡◌, refl, ap, ◌∙◌, true, not, Option, none, some, [], ◌∷◌, ◌++◌,
  append_assoc, length, length-append, take, drop, drop-add, take-append, drop-append, take-ge, ltb,
  le→ltb, ◌==◌, ==_iff, if◌then◌else◌, ok, arith,
}
use open_bebop.Prelude.Bytes.{
  Bytes, IsU32, IsU64, le_bytes, of_le_bytes, length-le_bytes, of_le_bytes-le_bytes,
}
use open_bebop.ProtoWire.Bpv7.PrimaryBlock.{PrimaryBlock, DecodeError, slice}
use open_bebop.ProtoWire.Bpv7.PrimaryBlock
use open_bebop.ProtoWire.Bpv7.Bundle.{Bundle, custody_bytes}
use open_bebop.ProtoWire.Bpv7.Bundle

-- The widths that the Rust types fix.
pub record IsSizedPrimary (p : PrimaryBlock) : Type 0 where
  pub dest : length p.dest ≡ 32
  pub source : length p.source ≡ 32
  pub creation_ts : IsU64 p.creation_ts
  pub lifetime : IsU64 p.lifetime
  pub nonce : length p.nonce ≡ 8

pub length-primary : (p : PrimaryBlock) → IsSizedPrimary p → length (PrimaryBlock.to_bytes p) ≡ 88
unfolding PrimaryBlock.to_bytes
length-primary p s = omega (
  arith,
  length-append p.dest
      (p.source ++ (le_bytes 8 p.creation_ts ++ (le_bytes 8 p.lifetime ++ p.nonce))),
  length-append p.source (le_bytes 8 p.creation_ts ++ (le_bytes 8 p.lifetime ++ p.nonce)),
  length-append (le_bytes 8 p.creation_ts) (le_bytes 8 p.lifetime ++ p.nonce),
  length-append (le_bytes 8 p.lifetime) p.nonce,
  length-le_bytes 8 p.creation_ts,
  length-le_bytes 8 p.lifetime,
  s.dest,
  s.source,
  s.nonce,
)

-- A slice that starts where a known prefix ends.
drop-from : (xs a r : Bytes) (m n : ℕ) → drop m xs ≡ a ++ r → length a ≡ n → drop (m + n) xs ≡ r
drop-from xs a r m n e l = drop-add m n xs ∙ ap (drop n) e ∙ drop-append n a r l

take-from : (xs a r : Bytes) (m n : ℕ) → drop m xs ≡ a ++ r → length a ≡ n → slice xs m n ≡ a
take-from xs a r m n e l = ap (take n) e ∙ take-append n a r l

-- Decoding the 88 bytes of a primary block of the widths that the Rust types fix gives the block
-- back.
pub primary_round_trip :
    (p : PrimaryBlock) → IsSizedPrimary p → PrimaryBlock.from_bytes (PrimaryBlock.to_bytes p) ≡ ok p
unfolding PrimaryBlock.from_bytes
primary_round_trip p s =
    let ts = le_bytes 8 p.creation_ts in
    let lt = le_bytes 8 p.lifetime in
    let b = PrimaryBlock.to_bytes p in
    let r₀ : drop 0 b ≡ p.dest ++ (p.source ++ (ts ++ (lt ++ p.nonce))) =
      unfold PrimaryBlock.to_bytes in refl in
    let r₁ = drop-from b p.dest (p.source ++ (ts ++ (lt ++ p.nonce))) 0 32 r₀ s.dest in
    let r₂ = drop-from b p.source (ts ++ (lt ++ p.nonce)) 32 32 r₁ s.source in
    let r₃ = drop-from b ts (lt ++ p.nonce) 64 8 r₂ (length-le_bytes 8 p.creation_ts) in
    let r₄ = drop-from b lt p.nonce 72 8 r₃ (length-le_bytes 8 p.lifetime) in
    let width : (length b == 88) ≡ true = (==_iff (length b) 88).1 (length-primary p s) in
    rw width (λ i. ok (record {
      dest = take-from b p.dest (p.source ++ (ts ++ (lt ++ p.nonce))) 0 32 r₀ s.dest i;
      source = take-from b p.source (ts ++ (lt ++ p.nonce)) 32 32 r₁ s.source i;
      creation_ts =
          (ap of_le_bytes (take-from b ts (lt ++ p.nonce) 64 8 r₂ (length-le_bytes 8 p.creation_ts))
              ∙ of_le_bytes-le_bytes 8 p.creation_ts s.creation_ts)
            i;
      lifetime =
          (ap of_le_bytes (take-from b lt p.nonce 72 8 r₃ (length-le_bytes 8 p.lifetime))
              ∙ of_le_bytes-le_bytes 8 p.lifetime s.lifetime)
            i;
      nonce = (ap (take 8) r₄ ∙ take-ge p.nonce 8 (omega arith)) i;
    }))

-- A custody signature of no bytes is not told from an absent one.
abbrev pub canonical_custody : Option Bytes → Option Bytes
canonical_custody none = none
canonical_custody (some []) = none
canonical_custody (some (x ∷ xs)) = some (x ∷ xs)

custody_read :
    (sig : Option Bytes)
    → (if ltb 0 (length (custody_bytes sig)) then some (custody_bytes sig) else none)
      ≡ canonical_custody sig
custody_read none = refl
custody_read (some []) = refl
custody_read (some (x ∷ xs)) = ground arith

not_short : (a b : ℕ) → b ≤ a → not (ltb a b) ≡ true
not_short a b h = rw (le→ltb a b h)

-- The parse of a text whose parts are known.
bundle_parse :
    (b : Bytes) (p : PrimaryBlock) (k m : ℕ) (cs pl : Bytes)
    → PrimaryBlock.from_bytes (take 88 b) ≡ ok p
    → of_le_bytes (slice b 88 4) ≡ k
    → of_le_bytes (slice b (92 + k) 4) ≡ m
    → slice b 92 k ≡ cs
    → slice b (92 + k + 4) m ≡ pl
    → 92 + k + 4 + m ≤ length b
    → Bundle.from_bytes b
      ≡ ok (record { primary = p; custody_sig = if ltb 0 k then some cs else none; payload = pl })
unfolding Bundle.from_bytes
bundle_parse b p k m cs pl ep ek em ecs epl long =
    rw (not_short (length b) 96 (omega arith), ep, ek)
      (rw (not_short (length b) (92 + k + 4) (omega arith), em)
        (rw (not_short (length b) (92 + k + 4 + m) long, ecs, epl)))

-- Decoding an encoded bundle of the widths that the Rust types fix gives it back, whatever
-- follows it in the buffer; an empty custody signature comes back as none.
pub bundle_round_trip :
    (b : Bundle) (extra : Bytes)
    → IsSizedPrimary b.primary
    → IsU32 (length (custody_bytes b.custody_sig))
    → IsU32 (length b.payload)
    → Bundle.from_bytes (Bundle.to_bytes b ++ extra)
      ≡ ok (record b { custody_sig = canonical_custody b.custody_sig })
unfolding Bundle.to_bytes
bundle_round_trip b extra s hc hp =
    let cs = custody_bytes b.custody_sig in
    let pl = b.payload in
    let head = PrimaryBlock.to_bytes b.primary in
    let l₁ = le_bytes 4 (length cs % 2 ^ 32) in
    let l₂ = le_bytes 4 (length pl % 2 ^ 32) in
    let t = (head ++ (l₁ ++ (cs ++ (l₂ ++ pl)))) ++ extra in
    let r₀ : drop 0 t ≡ head ++ (l₁ ++ (cs ++ (l₂ ++ (pl ++ extra)))) = simp append_assoc in
    let r₁ =
      drop-from t head (l₁ ++ (cs ++ (l₂ ++ (pl ++ extra)))) 0 88 r₀ (length-primary b.primary s) in
    let r₂ = drop-from t l₁ (cs ++ (l₂ ++ (pl ++ extra))) 88 4 r₁ (length-le_bytes 4 _) in
    let r₃ = drop-from t cs (l₂ ++ (pl ++ extra)) 92 (length cs) r₂ refl in
    let r₄ = drop-from t l₂ (pl ++ extra) (92 + length cs) 4 r₃ (length-le_bytes 4 _) in
    let read₁ : of_le_bytes (slice t 88 4) ≡ length cs =
      ap of_le_bytes (take-from t l₁ (cs ++ (l₂ ++ (pl ++ extra))) 88 4 r₁ (length-le_bytes 4 _))
      ∙ of_le_bytes-le_bytes 4 (length cs % 2 ^ 32) (omega arith)
      ∙ (let z : length cs % 2 ^ 32 ≡ length cs = omega arith in z) in
    let read₂ : of_le_bytes (slice t (92 + length cs) 4) ≡ length pl =
      ap of_le_bytes (take-from t l₂ (pl ++ extra) (92 + length cs) 4 r₃ (length-le_bytes 4 _))
      ∙ of_le_bytes-le_bytes 4 (length pl % 2 ^ 32) (omega arith)
      ∙ (let z : length pl % 2 ^ 32 ≡ length pl = omega arith in z) in
    let long : 92 + length cs + 4 + length pl ≤ length t = omega (
      arith,
      ap length r₀,
      length-append head (l₁ ++ (cs ++ (l₂ ++ (pl ++ extra)))),
      length-append l₁ (cs ++ (l₂ ++ (pl ++ extra))),
      length-append cs (l₂ ++ (pl ++ extra)),
      length-append l₂ (pl ++ extra),
      length-append pl extra,
      length-primary b.primary s,
      length-le_bytes 4 (length cs % 2 ^ 32),
      length-le_bytes 4 (length pl % 2 ^ 32),
    ) in
    let first : PrimaryBlock.from_bytes (take 88 t) ≡ ok b.primary =
      ap PrimaryBlock.from_bytes (
        take-from t head (l₁ ++ (cs ++ (l₂ ++ (pl ++ extra)))) 0 88 r₀ (length-primary b.primary s))
      ∙ primary_round_trip b.primary s in
    bundle_parse t b.primary (length cs) (length pl) cs pl first read₁ read₂
      (take-from t cs (l₂ ++ (pl ++ extra)) 92 (length cs) r₂ refl)
      (take-from t pl extra (92 + length cs + 4) (length pl) r₄ refl) long
    ∙ (λ i. ok (record b { custody_sig = custody_read b.custody_sig i }))
