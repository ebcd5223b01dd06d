-- ===== src/Core/EventLog/Replay.antt =====
-- The replay iterator of bebop2/core/src/event_log.rs.
use open_bebop.Prelude.{
  ℕ, zero, suc, ◌+◌, ◌≤◌, ◌≡◌, sym, ap, ◌∙◌, inl, inr, ◌∷◌, map, length, drop, drop_step, drop-ge,
  leb, Bool-cases, arith,
}
use open_bebop.Prelude.Bytes.{Bytes}
use open_bebop.Core.EventLog.{Entry, EventLog, ReplayIter, collect, replay_all}
use native.Mathlib.Numerals.{add-one}

abbrev pub view : Entry → ℕ × Bytes
view e = (e.seq, e.payload)

at : EventLog → ℕ → ReplayIter
at log i = record { log = log; idx = i }

collect_lem :
    (fuel : ℕ) (log : EventLog) (i : ℕ)
    → length log.entries ≤ fuel + i
    → collect fuel (at log i) ≡ map view (drop i log.entries)
unfolding collect at
collect_lem zero log i h = rw (drop-ge log.entries i (omega arith))
collect_lem (suc fuel) log i h = elim (drop_step log.entries i) [
  | inl (e, d) ↦ rw (e, d)
  | inr (x, e, d) ↦
      rw (e, d)
        (ap (◌∷◌ (view x)) (
          collect_lem fuel log (i + 1) (omega arith)
          ∙ ap (λ k. map view (drop k log.entries)) (add-one i)))
]

-- Replay from `n` gives the sequence numbers and payloads of the entries behind the first `n`.
pub replay_all_lem : (log : EventLog) (n : ℕ) → replay_all log n ≡ map view (drop n log.entries)
unfolding replay_all at
replay_all_lem log n = elim (Bool-cases (leb n (length log.entries))) [
  | inl t ↦ rw t (collect_lem (length log.entries) log n (omega arith))
  | inr f ↦ rw f (
      collect_lem (length log.entries) log (length log.entries) (omega arith)
      ∙ ap (map view) (
          drop-ge log.entries (length log.entries) (omega arith)
          ∙ sym (drop-ge log.entries n (ground arith))))
]
