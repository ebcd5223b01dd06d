-- ===== src/ProtoCap/Issuance.antt =====
-- bebop2/proto-cap/src/node_id.rs: a node's identity, and the budget of delegations that an anchor
-- may sign in an epoch. The genesis file is not modelled.
pub mod Budget
use open_bebop.Prelude.{
  ℕ, suc, ◌+◌, ◌/◌, ◌^◌, ◌-◌, min, Bool, true, false, not, List, ◌++◌, ltb, leb, ◌==◌, ◌≟◌,
  if◌then◌else◌, Result, ok, err, guard, ◌>>=◌, ◌>>◌,
}
use open_bebop.Prelude.Bytes.{Bytes, bytes_eq}
use open_bebop.Crypto.{Crypto}
use open_bebop.ProtoCap.Scope.{Scope}
use open_bebop.ProtoCap.Roster.{AnchorRoster, Delegation, Effect, in_roster}
use open_bebop.ProtoCap.Roster
use open_bebop.ProtoCap.Revocation.{RevocationSet, is_revoked_key}

pub record NodeKeys : Type 0 where
  pub pq_pub : Bytes
  pub classical_pub : Bytes

unfoldable pub from_keys : Crypto → Bytes → Bytes → Bytes
from_keys c pq_pub classical_pub = c.sha3 (pq_pub ++ classical_pub)

unfoldable pub node_id : Crypto → NodeKeys → Bytes
unfolding from_keys
node_id c k = from_keys c k.pq_pub k.classical_pub

pub data RootDelegationPolicy : Type 0 where
  operator_signed web_of_trust first_contact_qr unspecified : RootDelegationPolicy

pub data GenesisError : Type 0 where
  policy_unspecified : GenesisError

unfoldable pub require_explicit_policy :
    RootDelegationPolicy → Result GenesisError RootDelegationPolicy
require_explicit_policy unspecified = err policy_unspecified
require_explicit_policy operator_signed = ok operator_signed
require_explicit_policy web_of_trust = ok web_of_trust
require_explicit_policy first_contact_qr = ok first_contact_qr

pub record IssuanceBudget : Type 0 where
  pub anchor_id : Bytes
  pub epoch : ℕ
  pub minted_count : ℕ
  pub max_per_epoch : ℕ

-- Without `SignRejected`, since signing does not fail.
pub data IssuanceError : Type 0 where
  policy_refused : RootDelegationPolicy → IssuanceError
  anchor_not_enrolled anchor_revoked anchor_mismatch : IssuanceError
  epoch_regression budget_exhausted : IssuanceError

unfoldable pub issuance_epoch : ℕ → ℕ → ℕ
issuance_epoch now_tick epoch_len_ticks =
    if epoch_len_ticks == 0 then 0 else now_tick / epoch_len_ticks

unfoldable pub can_issue : IssuanceBudget → Bytes → ℕ → ℕ → Result IssuanceError (Unit {0})
unfolding issuance_epoch
can_issue b anchor_id now_tick epoch_len_ticks = do
  guard (not (ltb (issuance_epoch now_tick epoch_len_ticks) b.epoch)) epoch_regression
  guard (b.anchor_id ≟ anchor_id) anchor_mismatch
  guard (not (leb b.max_per_epoch b.minted_count)) budget_exhausted

unfoldable pub charge_issuance : IssuanceBudget → ℕ → ℕ → IssuanceBudget
unfolding issuance_epoch
charge_issuance b now_tick epoch_len_ticks =
    if ltb b.epoch (issuance_epoch now_tick epoch_len_ticks)
    then record b { epoch = issuance_epoch now_tick epoch_len_ticks; minted_count = 1 }
    else record b { minted_count = min (b.minted_count + 1) (2 ^ 32 - 1) }

unfoldable pub policy_gate : RootDelegationPolicy → Result IssuanceError (Unit {0})
policy_gate operator_signed = ok tt
policy_gate web_of_trust = err (policy_refused web_of_trust)
policy_gate first_contact_qr = err (policy_refused first_contact_qr)
policy_gate unspecified = err (policy_refused unspecified)

-- What a delegation says: its subject, scope, effect, expiry and nonce.
pub record Terms : Type 0 where
  pub subject : Bytes
  pub scope : Scope
  pub effect : Effect
  pub expiry : ℕ
  pub nonce : Bytes

unfoldable pub sign_delegation_budgeted :
    Crypto
    → RootDelegationPolicy
    → AnchorRoster
    → RevocationSet
    → IssuanceBudget
    → Bytes
    → Terms
    → Bytes
    → ℕ
    → ℕ
    → Result IssuanceError (Delegation × IssuanceBudget)
unfolding policy_gate can_issue charge_issuance
sign_delegation_budgeted c policy roster revoked budget issued_by t seed now_tick epoch_len_ticks =
    do
      policy_gate policy
      guard (in_roster roster issued_by) anchor_not_enrolled
      guard (not (is_revoked_key revoked issued_by)) anchor_revoked
      can_issue budget issued_by now_tick epoch_len_ticks
      ok (
        Roster.sign c issued_by t.subject t.scope t.effect t.expiry t.nonce seed,
        charge_issuance budget now_tick epoch_len_ticks,
      )
