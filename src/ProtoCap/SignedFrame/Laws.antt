-- ===== src/ProtoCap/SignedFrame/Laws.antt =====
-- The two legs of bebop2/proto-cap/src/signed_frame.rs.
use open_bebop.Prelude.{◌≡◌, refl, ◌↔◌, true, some, length, ok, arith}
use open_bebop.Prelude.Bytes.{Bytes}
use open_bebop.Crypto.{Crypto}
use open_bebop.ProtoCap.Capability.{canonical_bytes_tlv}
use open_bebop.ProtoCap.SignedFrame.{
  SignedFrame, binding_signing_domain, verify_classical, verify_pq,
}

pub verify_classical_iff :
    (c : Crypto) (f : SignedFrame)
    → (verify_classical c f ≡ ok tt) ↔ (
        (sig : Bytes) × (f.classical_sig ≡ some sig)
        × (length sig ≡ 64)
        × (c.ed_verify f.capability.subject_key (binding_signing_domain f) sig ≡ true))
unfolding verify_classical
verify_classical_iff c f = (λ h. ground arith, λ h. ground arith)

pub verify_pq_iff :
    (c : Crypto) (f : SignedFrame)
    → (verify_pq c f ≡ ok tt) ↔ (
        (pk : Bytes) × (sig : Bytes) × (f.capability.subject_key_pq ≡ some pk)
        × (f.pq_sig ≡ some sig)
        × (c.pq_verify pk (binding_signing_domain f) sig ≡ true))
unfolding verify_pq
verify_pq_iff c f = (λ h. ground arith, λ h. ground arith)

-- The frame with another post-quantum key and signature.
abbrev pub swap_pq : Bytes → Bytes → SignedFrame → SignedFrame
swap_pq pk sig f = record f {
  capability = record f.capability { subject_key_pq = some pk };
  pq_sig = some sig;
}

-- Neither signature sees the post-quantum key: both are over the same bytes after a swap.
pub binding_signing_domain-swap_pq :
    (pk sig : Bytes) (f : SignedFrame)
    → binding_signing_domain (swap_pq pk sig f) ≡ binding_signing_domain f
unfolding binding_signing_domain canonical_bytes_tlv
binding_signing_domain-swap_pq pk sig f = refl

pub verify_classical-swap_pq :
    (c : Crypto) (pk sig : Bytes) (f : SignedFrame)
    → verify_classical c (swap_pq pk sig f) ≡ verify_classical c f
unfolding verify_classical
verify_classical-swap_pq c pk sig f = rw (binding_signing_domain-swap_pq pk sig f)
