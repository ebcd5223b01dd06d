-- ===== src/Core/AntiEntropy.antt =====
-- bebop2/core/src/anti_entropy.rs: comparing two hash chains and pulling the missing suffix.
pub mod Divergence
pub mod Converge
use open_bebop.Prelude.{
  ℕ, zero, suc, ◌+◌, ◌-◌, Bool, Option, none, some, List, [], ◌∷◌, length, get_or, ltb, ◌==◌,
  if◌then◌else◌, Result, ok, err, ◌≟◌,
}
use open_bebop.Prelude.Bytes.{Bytes, bytes_eq}
use open_bebop.Core.EventLog.{
  EventLog, EventLogError, genesis, chain_input, len, append, verify, replay_all, does_not_continue,
}

-- A digest entry: sequence number and rolling hash.
abbrev pub Digest : Type 0
Digest = List (ℕ × Bytes)

pub record SyncPlan : Type 0 where
  pub divergence_seq : Option ℕ
  pub pull_from : ℕ
  pub pull_len : ℕ

-- The loop over `0..overlap`: the first index at which the hashes differ.
unfoldable pub first_divergence : Digest → Digest → Option ℕ
first_divergence [] remote = none
first_divergence (a ∷ as_) [] = none
first_divergence (a ∷ as_) (b ∷ bs) =
    let rest = first_divergence as_ bs in
    if a.1 ≟ b.1 then (elim rest [ none ↦ none | some i ↦ some (suc i) ]) else some 0

unfoldable pub diff : Digest → Digest → SyncPlan
unfolding first_divergence
diff local remote = elim (first_divergence local remote) [
  | some i ↦ record {
    divergence_seq = some (get_or local i (0, [])).0;
    pull_from = (get_or local i (0, [])).0;
    pull_len = length remote - i;
  }
  | none ↦
      if ltb (length local) (length remote)
      then record {
        divergence_seq = some (length local);
        pull_from = length local;
        pull_len = length remote - length local;
      }
      else record { divergence_seq = none; pull_from = 0; pull_len = 0 }
]

module _ (h : Bytes → Bytes) where
  unfoldable pub digest_from : Bytes → List (ℕ × Bytes) → Digest
  digest_from prev [] = []
  digest_from prev ((seq, payload) ∷ items) =
      (seq, h (chain_input prev seq payload)) ∷ digest_from (h (chain_input prev seq payload)) items

  unfoldable pub digest : EventLog → Digest
  unfolding digest_from
  digest log = digest_from genesis (replay_all log 0)

  -- The log is left with what was appended before an error.
  unfoldable pub apply_pull :
      EventLog → List (ℕ × Bytes) → EventLog × Result EventLogError (Unit {0})
  apply_pull log [] = (log, verify h log)
  apply_pull log ((seq, payload) ∷ missing) =
      let rest = apply_pull (append h log payload).0 missing in
      if seq == len log then rest else (log, err (record { seq = seq; reason = does_not_continue }))
