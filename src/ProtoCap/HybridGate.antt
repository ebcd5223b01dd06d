-- ===== src/ProtoCap/HybridGate.antt =====
-- bebop2/proto-cap/src/hybrid_gate.rs: the gate that every frame passes, with its replay ledger.
-- The ledger is a `HashSet`; the order in which it is walked when it is pruned is the argument
-- `iter`. The mutex is held for the whole of the last step, so a check is one transition.
pub mod Laws
pub mod Replay
pub mod PqKey
use open_bebop.Prelude.{
  ℕ, ◌+◌, ◌/◌, ◌^◌, Bool, true, false, not, ◌||◌, Option, none, some, List, [], ◌∷◌, length, ltb,
  take, Result, ok, err, guard, ◌>>=◌, ◌>>◌, contains, insert, if◌then◌else◌,
}
use open_bebop.Prelude.Bytes.{Bytes, bytes_eq}
use open_bebop.Crypto.{Crypto}
use open_bebop.ProtoCap.Error.{
  CapError, CapResult, expired, revoked, red_line_violation, nonce_rejected,
}
use open_bebop.ProtoCap.Capability.{Capability, is_fresh}
use open_bebop.ProtoCap.Roster.{AnchorRoster, Delegation, verify_chain}
use open_bebop.ProtoCap.Redline.{RedLinePolicy, RedLineCategory}
use open_bebop.ProtoCap.Redline
use open_bebop.ProtoCap.Revocation.{
  RevocationSet, is_revoked_key, is_revoked_capability, revocation_hash, pq_key_id,
}
use open_bebop.ProtoCap.SignedFrame.{SignedFrame, verify_classical, verify_pq}

pub data HybridPolicy : Type 0 where
  require_both classical_until_pq_audit : HybridPolicy

abbrev pub max_seen_nonces : ℕ
max_seen_nonces = 2 ^ 20

pub record HybridGate : Type 0 where
  pub policy : HybridPolicy
  pub redline : Option RedLinePolicy
  pub seen : List Bytes

unfoldable pub new : HybridPolicy → HybridGate
new policy = record { policy = policy; redline = none; seen = [] }

unfoldable pub new_redlined : HybridPolicy → RedLinePolicy → HybridGate
new_redlined policy redline = record { policy = policy; redline = some redline; seen = [] }

unfoldable pub check_redline : Option RedLinePolicy → Capability → CapResult (Unit {0})
check_redline none cap = ok tt
check_redline (some policy) cap = elim (Redline.check cap.scope policy) [
  | ok u ↦ ok tt
  | err category ↦ err red_line_violation
]

unfoldable pub check_pq_revoked : Crypto → RevocationSet → Option Bytes → CapResult (Unit {0})
check_pq_revoked c revocations none = ok tt
check_pq_revoked c revocations (some pq) =
    guard (not (is_revoked_key revocations (pq_key_id c pq))) revoked

unfoldable pub check_pq : Crypto → HybridPolicy → SignedFrame → CapResult (Unit {0})
check_pq c require_both frame = verify_pq c frame
check_pq c classical_until_pq_audit frame = elim frame.pq_sig [
  | some sig ↦ verify_pq c frame
  | none ↦ ok tt
]

-- Every step of `check` before the ledger is touched.
unfoldable pub verify_all :
    Crypto
    → HybridGate
    → SignedFrame
    → AnchorRoster
    → List Delegation
    → RevocationSet
    → ℕ
    → CapResult (Unit {0})
unfolding check_redline check_pq_revoked check_pq
verify_all c gate frame roster chain revocations now = do
  guard (is_fresh frame.capability now) expired
  verify_chain c roster chain frame.capability now
  check_redline gate.redline frame.capability
  guard
      (not (
        is_revoked_key revocations frame.capability.subject_key
        || is_revoked_capability revocations (revocation_hash c frame.capability)))
      revoked
  check_pq_revoked c revocations frame.capability.subject_key_pq
  verify_classical c frame
  check_pq c gate.policy frame

-- `if seen.len() > MAX { keep the first MAX / 2 of its iteration }`
unfoldable pub prune : (List Bytes → List Bytes) → List Bytes → List Bytes
prune iter seen =
    if ltb max_seen_nonces (length seen) then take (max_seen_nonces / 2) (iter seen) else seen

unfoldable pub record_nonce :
    (List Bytes → List Bytes) → Bytes → HybridGate → CapResult (Unit {0}) × HybridGate
record_nonce iter nonce gate =
    if contains gate.seen nonce
    then (err nonce_rejected, gate)
    else (ok tt, record gate { seen = prune iter (insert nonce gate.seen) })

unfoldable pub after_verify :
    (List Bytes → List Bytes)
    → Bytes
    → HybridGate
    → CapResult (Unit {0})
    → CapResult (Unit {0}) × HybridGate
unfolding record_nonce
after_verify iter nonce gate (ok u) = record_nonce iter nonce gate
after_verify iter nonce gate (err e) = (err e, gate)

unfoldable pub check :
    Crypto
    → (List Bytes → List Bytes)
    → HybridGate
    → SignedFrame
    → AnchorRoster
    → List Delegation
    → RevocationSet
    → ℕ
    → CapResult (Unit {0}) × HybridGate
unfolding after_verify
check c iter gate frame roster chain revocations now =
    after_verify iter frame.capability.nonce gate
      (verify_all c gate frame roster chain revocations now)

-- `SignedFrame::verify`: the check against the chain that the frame carries.
unfoldable pub verify_frame :
    Crypto
    → (List Bytes → List Bytes)
    → HybridGate
    → SignedFrame
    → AnchorRoster
    → RevocationSet
    → ℕ
    → CapResult (Unit {0}) × HybridGate
unfolding check
verify_frame c iter gate frame roster revocations now =
    check c iter gate frame roster frame.delegation_chain revocations now
