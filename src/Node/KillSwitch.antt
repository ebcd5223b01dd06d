-- ===== src/Node/KillSwitch.antt =====
-- bebop2/mesh-node/src/kill_switch.rs: the operator's kill order and the sequence that obeys it.
pub mod Laws
use open_bebop.Prelude.{
  ℕ, Bool, true, false, not, Option, none, some, List, [], ◌∷◌, ◌++◌, length, contains, insert, ◌%◌,
  ◌^◌, Result, ok, err, guard, ◌>>=◌, ◌>>◌,
}
use open_bebop.Prelude.Bytes.{Bytes, le_bytes, bytes_eq}
use open_bebop.Crypto.{Crypto}

-- A set of keys is the list of its members.
pub record KillAnchors : Type 0 where
  pub keys : List Bytes

unfoldable pub no_anchors : KillAnchors
no_anchors = record { keys = [] }

unfoldable pub enroll : Bytes → KillAnchors → KillAnchors
unfolding insert
enroll pubkey a = record { keys = insert pubkey a.keys }

unfoldable pub is_empty : List Bytes → Bool
is_empty [] = true
is_empty (k ∷ ks) = false

pub record KillOrder : Type 0 where
  pub anchor : Bytes
  pub nonce : Bytes
  pub reason : Bytes
  pub sig : Bytes

-- "BEBOP2/OPERATOR-KILL/v1"
abbrev kill_tag : Bytes
kill_tag =
    66 ∷ 69 ∷ 66 ∷ 79 ∷ 80 ∷ 50 ∷ 47 ∷ 79 ∷ 80 ∷ 69 ∷ 82 ∷ 65 ∷ 84 ∷ 79 ∷ 82 ∷ 45 ∷ 75 ∷ 73 ∷ 76
    ∷ 76 ∷ 47 ∷ 118 ∷ 49 ∷ []

unfoldable pub signing_domain : Bytes → Bytes → Bytes → Bytes
signing_domain anchor nonce reason =
    kill_tag ++ anchor ++ nonce ++ le_bytes 4 (length reason % 2 ^ 32) ++ reason

unfoldable pub sign : Crypto → Bytes → Bytes → Bytes → Bytes → KillOrder
unfolding signing_domain
sign c anchor nonce reason seed = record {
  anchor = anchor;
  nonce = nonce;
  reason = reason;
  sig = c.ed_sign seed (signing_domain anchor nonce reason);
}

unfoldable pub replay_id : Crypto → KillOrder → Bytes
replay_id c o = c.sha3 (signing_domain o.anchor o.nonce o.reason)

-- The ids of the orders accepted so far.
pub record ReplayLedger : Type 0 where
  pub seen : List Bytes

-- `seen.insert(id)`; `handle` drops the flag that it returns.
unfoldable pub record_id : Bytes → ReplayLedger → ReplayLedger
unfolding insert
record_id id l = record { seen = insert id l.seen }

pub data KillReject : Type 0 where
  not_anchor : KillReject
  bad_signature : KillReject
  replay : KillReject
  without_anchors : KillReject
  snapshot_not_confirmed : KillReject

pub record SnapshotReceipt : Type 0 where
  pub snapshot_sha3 : Bytes

pub data KillState : Type 0 where
  running : KillState
  halted : SnapshotReceipt → Bytes → KillState

pub record KillSequence : Type 0 where
  pub anchors : KillAnchors
  pub ledger : ReplayLedger
  pub state : KillState

unfoldable pub new : KillAnchors → KillSequence
new anchors = record { anchors = anchors; ledger = record { seen = [] }; state = running }

unfoldable pub is_halted : KillSequence → Bool
is_halted k = elim k.state [ running ↦ false | halted receipt reason ↦ true ]

unfoldable pub verify : Crypto → KillOrder → KillSequence → Result KillReject (Unit {0})
unfolding is_empty
verify c o k = do
  guard (not (is_empty k.anchors.keys)) without_anchors
  guard (contains k.anchors.keys o.anchor) not_anchor
  guard (c.ed_verify o.anchor (signing_domain o.anchor o.nonce o.reason) o.sig) bad_signature
  guard (not (contains k.ledger.seen (replay_id c o))) replay

-- The id is recorded; the state becomes halted only on a receipt. The confirmer's answer is the
-- argument `snapshot`, its error message, which the source drops, a byte string.
unfoldable pub after_verify :
    Crypto
    → KillOrder
    → Result Bytes SnapshotReceipt
    → KillSequence
    → Result KillReject SnapshotReceipt × KillSequence
unfolding record_id
after_verify c o (ok receipt) k = (
  ok receipt,
  record k { ledger = record_id (replay_id c o) k.ledger; state = halted receipt o.reason },
)
after_verify c o (err message) k =
    (err snapshot_not_confirmed, record k { ledger = record_id (replay_id c o) k.ledger })

-- `self.verify(order)?` in front of the rest.
abbrev pub if_verified :
    Result KillReject (Unit {0})
    → Crypto
    → KillOrder
    → Result Bytes SnapshotReceipt
    → KillSequence
    → Result KillReject SnapshotReceipt × KillSequence
if_verified (ok u) c o snapshot k = after_verify c o snapshot k
if_verified (err e) c o snapshot k = (err e, k)

unfoldable pub handle :
    Crypto
    → KillOrder
    → Result Bytes SnapshotReceipt
    → KillSequence
    → Result KillReject SnapshotReceipt × KillSequence
handle c o snapshot k = if_verified (verify c o k) c o snapshot k
