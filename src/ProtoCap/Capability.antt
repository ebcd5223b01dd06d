-- ===== src/ProtoCap/Capability.antt =====
-- bebop2/proto-cap/src/capability.rs: the signed authorization statement.
pub mod Laws
use open_bebop.Prelude.{ℕ, Bool, Option, none, some, List, [], ◌∷◌, ltb}
use open_bebop.Prelude.Bytes.{Bytes, le_bytes}
use open_bebop.ProtoCap.Scope.{Scope, Resource, Action, single, to_tlv_bytes}
use open_bebop.ProtoCap.Tlv.{tlv_signing_input, domain_capability}

pub record Capability : Type 0 where
  pub subject_key : Bytes
  pub subject_key_pq : Option Bytes
  pub scope : Scope
  pub nonce : Bytes
  pub expiry : ℕ

unfoldable pub new : Bytes → Resource → Action → Bytes → ℕ → Capability
unfolding single
new subject_key resource action nonce expiry = record {
  subject_key = subject_key;
  subject_key_pq = none;
  scope = single resource action;
  nonce = nonce;
  expiry = expiry;
}

unfoldable pub new_hybrid : Bytes → Bytes → Resource → Action → Bytes → ℕ → Capability
unfolding single
new_hybrid subject_key subject_key_pq resource action nonce expiry = record {
  subject_key = subject_key;
  subject_key_pq = some subject_key_pq;
  scope = single resource action;
  nonce = nonce;
  expiry = expiry;
}

-- The field ids are 0x01 to 0x04; struct tag and wire version are 0x01.
unfoldable pub canonical_bytes_tlv : Capability → Bytes
canonical_bytes_tlv c = tlv_signing_input domain_capability 0x01 0x01 (
    (0x01 ∷ [], c.subject_key)
    ∷ (0x02 ∷ [], to_tlv_bytes c.scope)
    ∷ (0x03 ∷ [], c.nonce)
    ∷ (0x04 ∷ [], le_bytes 8 c.expiry)
    ∷ [])

unfoldable pub is_fresh : Capability → ℕ → Bool
is_fresh c now = ltb now c.expiry
