-- ===== src/Core/EventLog.antt =====
-- bebop2/core/src/event_log.rs: an append-only log with a hash chain. `h` is `sha3_256`.
pub mod Chain
pub mod Replay
use open_bebop.Prelude.{
  ℕ, zero, suc, ◌+◌, Bool, Option, none, some, List, [], ◌∷◌, ◌++◌, map, length, get_elem?,
  replicate, leb, if◌then◌else◌, Result, ok, err, ◌≟◌,
}
use open_bebop.Prelude.Bytes.{Bytes, be_bytes, bytes_eq}

abbrev pub genesis : Bytes
genesis = replicate 32 0

-- The two reasons that the crate gives.
pub data Reason : Type 0 where
  rolling_hash_mismatch does_not_continue : Reason

pub record EventLogError : Type 0 where
  pub seq : ℕ
  pub reason : Reason

pub record Entry : Type 0 where
  pub seq : ℕ
  pub payload : Bytes
  pub hash : Bytes

pub record EventLog : Type 0 where
  pub entries : List Entry

-- What is hashed: previous hash, sequence number big-endian, payload.
unfoldable pub chain_input : Bytes → ℕ → Bytes → Bytes
chain_input prev seq payload = prev ++ (be_bytes 8 seq ++ payload)

unfoldable pub new : EventLog
new = record { entries = [] }

-- `entries.last().map(|e| e.hash).unwrap_or(prev)`
unfoldable pub last_hash : Bytes → List Entry → Bytes
last_hash prev [] = prev
last_hash prev (e ∷ es) = last_hash e.hash es

unfoldable pub root_hash : EventLog → Bytes
unfolding last_hash
root_hash log = last_hash genesis log.entries

unfoldable pub len : EventLog → ℕ
len log = length log.entries

unfoldable pub is_empty : EventLog → Bool
is_empty log = elim log.entries [ [] ↦ Bool.true | e ∷ es ↦ Bool.false ]

unfoldable pub payload_at : EventLog → ℕ → Option Bytes
payload_at log seq = elim (get_elem? log.entries seq) [ none ↦ none | some e ↦ some e.payload ]

unfoldable pub snapshot_payloads : EventLog → List Bytes
snapshot_payloads log = map (λ e. e.payload) log.entries

module _ (h : Bytes → Bytes) where
  unfoldable pub entry : Bytes → ℕ → Bytes → Entry
  entry prev seq payload = record {
    seq = seq;
    payload = payload;
    hash = h (chain_input prev seq payload);
  }

  -- The new log and the sequence number.
  unfoldable pub append : EventLog → Bytes → EventLog × ℕ
  unfolding entry root_hash len
  append log payload =
      (record { entries = log.entries ++ entry (root_hash log) (len log) payload ∷ [] }, len log)

  -- The loop of `rebuild_from_payloads`, which pushes what `append` pushes.
  unfoldable pub append_all : EventLog → List Bytes → EventLog
  unfolding append
  append_all log [] = log
  append_all log (p ∷ ps) = append_all (append log p).0 ps

  unfoldable pub rebuild_from_payloads : List Bytes → EventLog
  unfolding append_all new
  rebuild_from_payloads ps = append_all new ps

  unfoldable pub verify_from : Bytes → List Entry → Result EventLogError (Unit {0})
  verify_from prev [] = ok tt
  verify_from prev (e ∷ es) =
      let rest = verify_from e.hash es in
      if h (chain_input prev e.seq e.payload) ≟ e.hash
      then rest
      else err (record { seq = e.seq; reason = rolling_hash_mismatch })

  unfoldable pub verify : EventLog → Result EventLogError (Unit {0})
  unfolding verify_from
  verify log = verify_from genesis log.entries

-- `ReplayIter`: the log and the next index.
pub record ReplayIter : Type 0 where
  pub log : EventLog
  pub idx : ℕ

unfoldable pub replay : EventLog → ℕ → ReplayIter
replay log from_seq = record {
  log = log;
  idx = if leb from_seq (length log.entries) then from_seq else length log.entries;
}

-- `next`: the item, and the iterator behind it.
unfoldable pub next : ReplayIter → Option ((ℕ × Bytes) × ReplayIter)
next it = elim (get_elem? it.log.entries it.idx) [
  | none ↦ none
  | some e ↦ some ((e.seq, e.payload), record it { idx = it.idx + 1 })
]

-- A `for` loop over the iterator; each round moves the index, so the log's length is fuel enough.
unfoldable pub collect : ℕ → ReplayIter → List (ℕ × Bytes)
unfolding next
collect zero it = []
collect (suc fuel) it = elim (next it) [ none ↦ [] | some (item, rest) ↦ item ∷ collect fuel rest ]

unfoldable pub replay_all : EventLog → ℕ → List (ℕ × Bytes)
unfolding replay collect
replay_all log from_seq = collect (length log.entries) (replay log from_seq)
