-- ===== src/ProtoCap/SignedFrame.antt =====
-- bebop2/proto-cap/src/signed_frame.rs: a capability, a payload and its two signatures.
pub mod Laws
use open_bebop.Prelude.{
  ℕ, Bool, Option, none, some, List, [], ◌∷◌, ◌++◌, length, replicate, ◌==◌, guard, ok_or, ◌>>=◌,
  ◌>>◌,
}
use open_bebop.Prelude.Bytes.{Bytes}
use open_bebop.Crypto.{Crypto}
use open_bebop.ProtoCap.Error.{
  CapResult, classical_verify_failed, pq_verify_failed, hybrid_incomplete,
}
use open_bebop.ProtoCap.Tlv.{Field, tlv_signing_input, domain_signed_frame, field_channel_binding}
use open_bebop.ProtoCap.Capability.{Capability, canonical_bytes_tlv}
use open_bebop.ProtoCap.Roster.{Delegation}

pub record SignedFrame : Type 0 where
  pub capability : Capability
  pub payload : Bytes
  pub channel_binding : Option Bytes
  pub classical_sig : Option Bytes
  pub pq_sig : Option Bytes
  pub delegation_chain : List Delegation

unfoldable pub new : Capability → Bytes → SignedFrame
new capability payload = record {
  capability = capability;
  payload = payload;
  channel_binding = none;
  classical_sig = none;
  pq_sig = none;
  delegation_chain = [];
}

unfoldable pub with_binding : Bytes → SignedFrame → SignedFrame
with_binding hash f = record f { channel_binding = some hash }

-- `if let Some(binding) = &self.channel_binding { fields.push(…) }`
unfoldable pub binding_fields : Option Bytes → List Field
binding_fields none = []
binding_fields (some binding) = (field_channel_binding ∷ [], binding) ∷ []

unfoldable pub signing_domain : SignedFrame → Bytes
unfolding binding_fields
signing_domain f = tlv_signing_input domain_signed_frame 0x01 0x01 (
    (0x01 ∷ [], canonical_bytes_tlv f.capability)
    ∷ (0x02 ∷ [], f.payload)
    ∷ binding_fields f.channel_binding)

-- `channel_binding.unwrap_or([0u8; 32])`
unfoldable pub binding_or_zero : Option Bytes → Bytes
binding_or_zero none = replicate 32 0
binding_or_zero (some binding) = binding

unfoldable pub binding_signing_domain : SignedFrame → Bytes
unfolding signing_domain binding_or_zero
binding_signing_domain f = signing_domain f ++ binding_or_zero f.channel_binding

unfoldable pub sign_classical : Crypto → Bytes → SignedFrame → SignedFrame
unfolding binding_signing_domain
sign_classical c seed f = record f {
  classical_sig = some (c.ed_sign seed (binding_signing_domain f));
}

unfoldable pub sign_pq : Crypto → Bytes → Bytes → SignedFrame → SignedFrame
unfolding binding_signing_domain
sign_pq c sk_pq rnd f = record f { pq_sig = some (c.pq_sign sk_pq (binding_signing_domain f) rnd) }

unfoldable pub verify_classical : Crypto → SignedFrame → CapResult (Unit {0})
verify_classical c f = do
  sig ← ok_or f.classical_sig classical_verify_failed
  guard (length sig == 64) classical_verify_failed
  guard (c.ed_verify f.capability.subject_key (binding_signing_domain f) sig)
      classical_verify_failed

unfoldable pub verify_pq : Crypto → SignedFrame → CapResult (Unit {0})
verify_pq c f = do
  pk_pq ← ok_or f.capability.subject_key_pq hybrid_incomplete
  sig ← ok_or f.pq_sig pq_verify_failed
  guard (c.pq_verify pk_pq (binding_signing_domain f) sig) pq_verify_failed
