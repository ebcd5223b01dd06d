-- ===== src/Node/Breach.antt =====
-- bebop2/mesh-node/src/breach.rs: the alarm of a node, 40 bytes in a frame signed with both legs.
pub mod Laws
use open_bebop.Prelude.{
  ℕ, Bool, true, false, not, ◌&&◌, ◌||◌, Option, none, some, List, [], ◌∷◌, length, ◌==◌, is_ok,
  decide_eq, Result, ok, err, guard, ◌>>=◌, ◌>>◌,
}
use open_bebop.Prelude.Bytes.{Bytes}
use open_bebop.Crypto.{Crypto}
use open_bebop.ProtoCap.Scope.{Resource, Action, Resource-discrete, Action-discrete}
use open_bebop.ProtoCap.Capability.{new_hybrid}
use open_bebop.ProtoCap.SignedFrame.{
  SignedFrame, sign_classical, sign_pq, verify_classical, verify_pq,
}
use open_bebop.ProtoCap.SignedFrame

abbrev pub breach_alert_bytes : ℕ
breach_alert_bytes = 40

pub data BreachVerifyError : Type 0 where
  hybrid_gate not_a_breach_frame bad_payload_len witness_id_mismatch : BreachVerifyError

-- `grants == &[(BreachAlarm, Broadcast)]`
unfoldable pub is_breach_grant : List (Resource × Action) → Bool
is_breach_grant [] = false
is_breach_grant (g ∷ []) =
    decide_eq Resource-discrete g.0 Resource.breach_alarm
    && decide_eq Action-discrete g.1 Action.broadcast
is_breach_grant (g ∷ g' ∷ gs) = false

module _ (c : Crypto) where
  -- `ed_keygen` gives the public key of a seed.
  unfoldable pub sign :
      (Bytes → Bytes) → Bytes → Bytes → Bytes → Bytes → Bytes → ℕ → Bytes → SignedFrame
  sign ed_keygen alert ed_seed pq_sk pq_pk nonce expiry rnd =
      let cap =
        new_hybrid (ed_keygen ed_seed) pq_pk Resource.breach_alarm Action.broadcast nonce expiry in
      sign_pq c pq_sk rnd (sign_classical c ed_seed (SignedFrame.new cap alert))

  -- The kernel's decoder of alerts, which a build without `kernel-rlib` leaves out.
  abbrev pub decodes : Option (Bytes → Bool) → Bytes → Bool
  decodes none alert = true
  decodes (some decode) alert = decode alert

  unfoldable pub verify : Option (Bytes → Bool) → SignedFrame → Result BreachVerifyError Bytes
  unfolding is_breach_grant
  verify kernel frame = do
    guard (is_breach_grant frame.capability.scope.grants) not_a_breach_frame
    guard (is_ok (verify_classical c frame) && is_ok (verify_pq c frame)) hybrid_gate
    guard (length frame.payload == breach_alert_bytes) bad_payload_len
    guard (decodes kernel frame.payload) witness_id_mismatch
    ok frame.payload
