-- ===== src/ProtoWire/SyncPeer.antt =====
-- bebop2/proto-wire/src/sync_pull.rs, last part: a peer's state, the answer to a pull, and the
-- folding of what was pulled. A map is the list of its entries; the order in which a `HashMap`
-- gives its values is not fixed, so nothing is said of the order of an answer.
pub mod Invariant
pub mod Ingest
pub mod Counts
use open_bebop.Prelude.{
  ℕ, ◌+◌, Bool, true, false, not, Option, none, some, List, [], ◌∷◌, map, retain, length, ltb,
  if◌then◌else◌, is_ok, Elem,
}
use open_bebop.Prelude.Bytes.{Bytes, bytes_eq}
use open_bebop.Prelude.Maps.{lookup, has_key, put}
use open_bebop.Crypto.{Crypto}
use open_bebop.ProtoWire.SyncFrame.{SyncFrame, with_content_id, verify}
use open_bebop.ProtoWire.MerkleLog.{MerkleLog, add}
use open_bebop.ProtoWire.MerkleLog

abbrev pub Watermark : Type 0
Watermark = List (Bytes × ℕ)

-- `PullRequest::with_watermark`
abbrev pub with_watermark : Bytes → ℕ → Watermark → Watermark
with_watermark actor last_seq w = put actor last_seq w

pub record IngestResult : Type 0 where
  pub added : ℕ
  pub dup : ℕ
  pub rejected : ℕ

pub record SyncPeer : Type 0 where
  pub frames : List (Bytes × SyncFrame)
  pub max_seq : Watermark
  pub merkle : MerkleLog

abbrev pub new : SyncPeer
new = record { frames = []; max_seq = []; merkle = MerkleLog.new }

-- `.copied().unwrap_or(0)`
abbrev pub or_zero : Option ℕ → ℕ
or_zero none = 0
or_zero (some n) = n

unfoldable pub last_seq : Bytes → Watermark → ℕ
last_seq actor w = or_zero (lookup actor w)

-- `entry(actor).or_insert(0)`, raised to `seq`.
unfoldable pub raise : Bytes → ℕ → Watermark → Watermark
unfolding last_seq
raise actor seq w = put actor (if ltb (last_seq actor w) seq then seq else last_seq actor w) w

-- What both ways into the log do with a frame that is new.
unfoldable pub fold_in : Bytes → SyncFrame → SyncPeer → SyncPeer
unfolding raise
fold_in id f p = record {
  frames = put id f p.frames;
  max_seq = raise f.actor f.seq p.max_seq;
  merkle = add id p.merkle;
}

abbrev pub contains : SyncPeer → Bytes → Bool
contains p id = has_key id p.frames

abbrev pub len : SyncPeer → ℕ
len p = length p.frames

-- Whether the frame is past the requester's watermark for its actor.
abbrev pub past : Watermark → SyncFrame → Bool
past watermark f = ltb (last_seq f.actor watermark) f.seq

unfoldable pub pull : Watermark → SyncPeer → List SyncFrame
unfolding last_seq
pull watermark p = retain (past watermark) (map (λ (entry : Bytes × SyncFrame). entry.1) p.frames)

unfoldable pub make_pull_request : SyncPeer → Watermark
make_pull_request p = p.max_seq

module _ (c : Crypto) where
  -- `get(&id).cloned().unwrap()`: the frame is there.
  abbrev pub stored : Option SyncFrame → SyncFrame → SyncFrame
  stored none f = f
  stored (some g) f = g

  unfoldable pub local_commit : SyncFrame → SyncPeer → SyncPeer × SyncFrame
  unfolding fold_in
  local_commit frame p =
      let f = with_content_id c frame in
      let id = f.content_id in
      let after = if has_key id p.frames then p else fold_in id f p in
      (after, stored (lookup id after.frames) f)

  unfoldable pub root : SyncPeer → Bytes
  root p = MerkleLog.root c.sha3 p.merkle

  -- One round of the loop.
  unfoldable pub ingest_frame : SyncFrame → SyncPeer × IngestResult → SyncPeer × IngestResult
  unfolding fold_in
  ingest_frame f (p, res) =
      if not (is_ok (verify c f))
      then (p, record res { rejected = res.rejected + 1 })
      else if has_key f.content_id p.frames
      then (p, record res { dup = res.dup + 1 })
      else (fold_in f.content_id f p, record res { added = res.added + 1 })

  unfoldable pub ingest_from : List SyncFrame → SyncPeer × IngestResult → SyncPeer × IngestResult
  unfolding ingest_frame
  ingest_from [] state = state
  ingest_from (f ∷ frames) state = ingest_from frames (ingest_frame f state)

  unfoldable pub ingest : List SyncFrame → SyncPeer → SyncPeer × IngestResult
  unfolding ingest_from
  ingest frames p = ingest_from frames (p, record { added = 0; dup = 0; rejected = 0 })
