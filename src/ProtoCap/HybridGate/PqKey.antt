-- ===== src/ProtoCap/HybridGate/PqKey.antt =====
-- The post-quantum leg of bebop2/proto-cap/src/hybrid_gate.rs and what the signed bytes of
-- bebop2/proto-cap/src/capability.rs hold.
use open_bebop.Prelude.{ℕ, ◌≡◌, refl, ap, ◌∙◌, true, false, Option, none, some, List, [], ◌∷◌, ok}
use open_bebop.Prelude.Bytes.{Bytes, bytes_eq}
use open_bebop.Crypto.{Crypto}
use open_bebop.ProtoCap.Capability.{Capability}
use open_bebop.ProtoCap.Capability.Laws.{canonical_bytes_tlv-subject_key_pq}
use open_bebop.ProtoCap.Roster.{AnchorRoster, Delegation, verify_chain}
use open_bebop.ProtoCap.Redline.{RedLinePolicy}
use open_bebop.ProtoCap.Revocation.{RevocationSet, is_revoked_key, revocation_hash, pq_key_id}
use open_bebop.ProtoCap.SignedFrame.{SignedFrame, binding_signing_domain}
use open_bebop.ProtoCap.SignedFrame.Laws.{
  swap_pq, verify_pq_iff, binding_signing_domain-swap_pq, verify_classical-swap_pq,
}
use open_bebop.ProtoCap.HybridGate.{HybridGate, check}
use open_bebop.ProtoCap.HybridGate.Laws.{PassesRedline, gate-check_iff}

verify_chain-subject_key_pq :
    (c : Crypto) (roster : AnchorRoster) (chain : List Delegation) (request : Capability)
    (pk : Option Bytes) (now : ℕ)
    → verify_chain c roster chain (record request { subject_key_pq = pk }) now
      ≡ verify_chain c roster chain request now
unfolding verify_chain
verify_chain-subject_key_pq c roster [] request pk now = refl
verify_chain-subject_key_pq c roster (root ∷ links) request pk now = refl

PassesRedline-subject_key_pq :
    (policy : Option RedLinePolicy) (request : Capability) (pk : Option Bytes)
    → PassesRedline policy request
    → PassesRedline policy (record request { subject_key_pq = pk })
PassesRedline-subject_key_pq none request pk h = tt
PassesRedline-subject_key_pq (some policy) request pk h = h

revocation_hash-subject_key_pq :
    (c : Crypto) (request : Capability) (pk : Option Bytes)
    → revocation_hash c (record request { subject_key_pq = pk }) ≡ revocation_hash c request
unfolding revocation_hash
revocation_hash-subject_key_pq c request pk =
    ap c.sha3 (canonical_bytes_tlv-subject_key_pq request pk)

-- If the gate accepts a frame, it also accepts it with any other post-quantum key and signature
-- that verify together over the bytes that the frame signed, if that key is not revoked.
pub check-swap_pq :
    (c : Crypto) (iter : List Bytes → List Bytes) (gate : HybridGate) (frame : SignedFrame)
    (roster : AnchorRoster) (chain : List Delegation) (revocations : RevocationSet) (now : ℕ)
    (pk sig : Bytes)
    → c.pq_verify pk (binding_signing_domain frame) sig ≡ true
    → is_revoked_key revocations (pq_key_id c pk) ≡ false
    → (check c iter gate frame roster chain revocations now).0 ≡ ok tt
    → (check c iter gate (swap_pq pk sig frame) roster chain revocations now).0 ≡ ok tt
check-swap_pq c iter gate frame roster chain revocations now pk sig signed good h =
    let (v, unseen) = (gate-check_iff c gate frame roster chain revocations now iter).0 h in
    let request = frame.capability in
    (gate-check_iff c gate (swap_pq pk sig frame) roster chain revocations now iter).1 (
      record {
        fresh = v.fresh;
        authorized =
            verify_chain-subject_key_pq c roster chain request (some pk) now ∙ v.authorized;
        redline = PassesRedline-subject_key_pq gate.redline request (some pk) v.redline;
        key_good = v.key_good;
        capability_good = rw (revocation_hash-subject_key_pq c request (some pk)) v.capability_good;
        pq_good = good;
        classical = verify_classical-swap_pq c pk sig frame ∙ v.classical;
        pq = λ w.
            (verify_pq_iff c (swap_pq pk sig frame)).1
              (pk, sig, refl, refl, rw (binding_signing_domain-swap_pq pk sig frame) signed);
      },
      unseen,
    )
