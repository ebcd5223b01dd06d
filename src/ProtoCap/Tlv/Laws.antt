-- ===== src/ProtoCap/Tlv/Laws.antt =====
-- The signing input of bebop2/proto-cap/src/tlv.rs as a code.
use open_bebop.Prelude.{
  ℕ, ◌%◌, ◌^◌, ◌<◌, ◌≡◌, refl, sym, ◌∙◌, List, [], ◌∷◌, length, arith, All, append-injective,
  head-injective, tail-injective,
}
use open_bebop.Prelude.Bytes.{Bytes, le_bytes, length-le_bytes, le_bytes-injective}
use open_bebop.Prelude.Sort.{sort, length-sort, sort-All}
use open_bebop.ProtoCap.Tlv.{Field, key_le, emit, tlv_signing_input}

-- What the callers present: ids of one byte and values whose length fits the `u32`.
abbrev pub IsField : Field → Type 0
IsField f = (length f.0 ≡ 1) × (length f.1 < 2 ^ 32)

emit-injective :
    (fs gs : List Field)
    → length fs ≡ length gs
    → All IsField fs
    → All IsField gs
    → emit fs ≡ emit gs
    → fs ≡ gs
unfolding emit
emit-injective [] [] l hf hg e = refl
emit-injective [] (g ∷ gs) l hf hg e = absurd (omega arith)
emit-injective (f ∷ fs) [] l hf hg e = absurd (omega arith)
emit-injective ((i, v) ∷ fs) ((j, w) ∷ gs) l hf hg e =
    let (ids, e₁) = append-injective i j _ _ (omega arith) e in
    let (lens, e₂) =
      append-injective (le_bytes 4 (length v % 2 ^ 32)) (le_bytes 4 (length w % 2 ^ 32)) _ _
        (length-le_bytes 4 _ ∙ sym (length-le_bytes 4 _)) e₁ in
    let same : length v % 2 ^ 32 ≡ length w % 2 ^ 32 =
      le_bytes-injective 4 _ _ (omega arith) (omega arith) lens in
    let (vals, e₃) = append-injective v w _ _ (omega arith) e₂ in
    let rest = emit-injective fs gs (omega arith) hf.1 hg.1 e₃ in λ k. (ids k, vals k) ∷ rest k

-- With domain tags of one length, fewer than 256 fields, one-byte field ids and values shorter
-- than 2 ^ 32 bytes, two signing inputs are equal only if domain tag, struct tag, version and
-- sorted fields are.
pub tlv_signing_input-injective :
    (d d' : Bytes) (s s' v v' : ℕ) (fs gs : List Field)
    → length d ≡ length d'
    → length fs < 256
    → length gs < 256
    → All IsField fs
    → All IsField gs
    → tlv_signing_input d s v fs ≡ tlv_signing_input d' s' v' gs
    → (d ≡ d') × (s ≡ s') × (v ≡ v') × (sort key_le fs ≡ sort key_le gs)
unfolding tlv_signing_input
tlv_signing_input-injective d d' s s' v v' fs gs ld lf lg hf hg e =
    let (tags, e₁) = append-injective d d' _ _ ld e in
    let e₂ = tail-injective e₁ in
    let e₃ = tail-injective e₂ in
    let count = head-injective e₃ in
    let lens : length (sort key_le fs) ≡ length (sort key_le gs) =
      omega (arith, length-sort key_le fs, length-sort key_le gs) in
    (
      tags,
      head-injective e₁,
      head-injective e₂,
      emit-injective (sort key_le fs) (sort key_le gs) lens (sort-All key_le IsField fs hf)
          (sort-All key_le IsField gs hg) (tail-injective e₃),
    )
