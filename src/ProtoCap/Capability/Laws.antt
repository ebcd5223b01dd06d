-- ===== src/ProtoCap/Capability/Laws.antt =====
-- The canonical bytes of bebop2/proto-cap/src/capability.rs.
use open_bebop.Prelude.{
  ℕ, ◌^◌, ◌<◌, ◌≡◌, refl, ap, Option, List, [], ◌∷◌, length, get_or, arith, All,
}
use open_bebop.Prelude.Bytes.{Bytes, le_bytes, le_bytes-injective, length-le_bytes, IsU64}
use open_bebop.Prelude.Sort.{sort}
use open_bebop.ProtoCap.Scope.{to_tlv_bytes}
use open_bebop.ProtoCap.Scope.Laws.{to_tlv_bytes-injective, length-to_tlv_bytes}
use open_bebop.ProtoCap.Tlv.{Field, key_le, domain_capability}
use open_bebop.ProtoCap.Tlv.Laws.{IsField, tlv_signing_input-injective}
use open_bebop.ProtoCap.Capability.{Capability, canonical_bytes_tlv}

-- The widths that the Rust types fix; a scope is bounded by the `u32` field length.
pub record IsSized (c : Capability) : Type 0 where
  pub key : length c.subject_key ≡ 32
  pub nonce : length c.nonce ≡ 8
  pub expiry : IsU64 c.expiry
  pub grants : length c.scope.grants < 2 ^ 16

abbrev fields : Capability → List Field
fields c =
    (0x01 ∷ [], c.subject_key)
    ∷ (0x02 ∷ [], to_tlv_bytes c.scope)
    ∷ (0x03 ∷ [], c.nonce)
    ∷ (0x04 ∷ [], le_bytes 8 c.expiry)
    ∷ []

fields-sorted : (c : Capability) → sort key_le (fields c) ≡ fields c
unfolding sort
fields-sorted c = refl

fields-IsField : (c : Capability) → IsSized c → All IsField (fields c)
fields-IsField c s =
    omega (arith, s.key, s.nonce, s.grants, length-to_tlv_bytes c.scope, length-le_bytes 8 c.expiry)

value_at : ℕ → List Field → Bytes
value_at i fs = (get_or fs i ([], [])).1

-- For capabilities of the widths that the Rust types fix, with fewer than 2 ^ 16 grants, the
-- signed bytes determine subject, scope, nonce and expiry.
pub canonical_bytes_tlv-injective :
    (c d : Capability)
    → IsSized c
    → IsSized d
    → canonical_bytes_tlv c ≡ canonical_bytes_tlv d
    → (c.subject_key ≡ d.subject_key)
      × (c.scope ≡ d.scope)
      × (c.nonce ≡ d.nonce)
      × (c.expiry ≡ d.expiry)
unfolding canonical_bytes_tlv value_at
canonical_bytes_tlv-injective c d sc sd e =
    let sorted =
      (tlv_signing_input-injective domain_capability domain_capability 1 1 1 1 (fields c) (fields d)
        refl (omega arith) (omega arith) (fields-IsField c sc) (fields-IsField d sd) e).3 in
    let same : fields c ≡ fields d = rw (← fields-sorted c, ← fields-sorted d) sorted in
    (
      ap (value_at 0) same,
      to_tlv_bytes-injective c.scope d.scope (ap (value_at 1) same),
      ap (value_at 2) same,
      le_bytes-injective 8 c.expiry d.expiry sc.expiry sd.expiry (ap (value_at 3) same),
    )

-- The post-quantum key is no part of the signed bytes.
pub canonical_bytes_tlv-subject_key_pq :
    (c : Capability) (k : Option Bytes)
    → canonical_bytes_tlv (record c { subject_key_pq = k }) ≡ canonical_bytes_tlv c
unfolding canonical_bytes_tlv
canonical_bytes_tlv-subject_key_pq c k = refl
