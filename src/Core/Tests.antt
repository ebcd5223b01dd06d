-- ===== src/Core/Tests.antt =====
-- bebop2/core/src/event_log.rs and anti_entropy.rs on small logs, with a toy hash.
use open_bebop.Prelude.{
  ◌≡◌, ◌⊎◌, refl, some, List, [], ◌∷◌, ◌++◌, map, take, drop, ok, err, arith, replicate, length,
}
use open_bebop.Prelude.Bytes.{Bytes, bytes_beq, be_bytes}
use open_bebop.Crypto.{Collision}
use open_bebop.Core.EventLog.{
  EventLog, rebuild_from_payloads, verify, replay_all, root_hash, chain_input, does_not_continue,
}
use open_bebop.Core.EventLog.Chain.{root_hash-pins}
use open_bebop.Core.EventLog.Replay.{replay_all_lem, view}
use open_bebop.Core.AntiEntropy.{first_divergence, digest, diff, apply_pull}
use open_bebop.Core.AntiEntropy.Converge.{sync_converges, fork_refused}

abbrev toy_hash : Bytes → Bytes
toy_hash text = replicate 32 (length text)

-- A hash that keeps its text apart.
abbrev wide_hash : Bytes → Bytes
wide_hash text = text

abbrev feed_ab : List Bytes
feed_ab = (1 ∷ []) ∷ (2 ∷ []) ∷ []

abbrev feed_ax : List Bytes
feed_ax = (1 ∷ []) ∷ (3 ∷ 3 ∷ []) ∷ []

abbrev log_a : EventLog
log_a = rebuild_from_payloads toy_hash ((1 ∷ []) ∷ [])

abbrev log_b : EventLog
log_b = rebuild_from_payloads toy_hash ((2 ∷ []) ∷ [])

abbrev log_ab : EventLog
log_ab = rebuild_from_payloads wide_hash feed_ab

root_hash-pins_example : (log_a ≡ log_b) ⊎ Collision toy_hash
unfolding rebuild_from_payloads verify root_hash bytes_beq chain_input be_bytes
root_hash-pins_example =
    root_hash-pins toy_hash log_a log_b refl ((omega arith, refl), tt) ((omega arith, refl), tt)
      refl refl refl

replay_all_lem_example : replay_all log_ab 1 ≡ map view (drop 1 log_ab.entries)
replay_all_lem_example = replay_all_lem log_ab 1

sync_converges_example :
    let local = rebuild_from_payloads wide_hash feed_ab in
    let remote = rebuild_from_payloads wide_hash (feed_ab ++ feed_ax) in
    let plan = diff (digest wide_hash local) (digest wide_hash remote) in
    apply_pull wide_hash local (take plan.pull_len (replay_all remote plan.pull_from))
    ≡ (remote, ok tt)
sync_converges_example = sync_converges wide_hash feed_ab feed_ax

forked :
    first_divergence
      (digest toy_hash (rebuild_from_payloads toy_hash feed_ab))
      (digest toy_hash (rebuild_from_payloads toy_hash feed_ax))
    ≡ some 1
unfolding first_divergence digest rebuild_from_payloads replay_all bytes_beq chain_input be_bytes
forked = refl

fork_refused_example :
    let local = rebuild_from_payloads toy_hash feed_ab in
    let remote = rebuild_from_payloads toy_hash feed_ax in
    let plan = diff (digest toy_hash local) (digest toy_hash remote) in
    (plan.pull_from ≡ 1)
    × (apply_pull toy_hash local (replay_all remote plan.pull_from)
        ≡ (local, err (record { seq = 1; reason = does_not_continue })))
fork_refused_example = fork_refused toy_hash feed_ab feed_ax 1 forked
