-- ===== src/Node/KillSwitch/Laws.antt =====
-- The order of the steps in bebop2/mesh-node/src/kill_switch.rs.
use open_bebop.Prelude.{
  ◌≡◌, refl, ap, Bool, true, false, not, List, [], ◌∷◌, contains, insert, contains-insert, ◌⊎◌, inl,
  inr, Result, ok, err, guard, ◌>>◌, ◌↔◌, Result-cases, ≟-refl,
}
use open_bebop.Prelude.Bytes.{Bytes, bytes_eq}
use open_bebop.Crypto.{Crypto}
use open_bebop.Node.KillSwitch.{
  KillOrder, signing_domain, replay_id, KillReject, replay, without_anchors, KillState,
  bad_signature, not_anchor, SnapshotReceipt, halted, KillSequence, is_empty, if_verified, verify,
  handle, after_verify,
}

-- An order that the sequence may obey.
pub record IsAuthentic (c : Crypto) (o : KillOrder) (k : KillSequence) : Type 0 where
  pub enrolled : contains k.anchors.keys o.anchor ≡ true
  pub signed : c.ed_verify o.anchor (signing_domain o.anchor o.nonce o.reason) o.sig ≡ true
  pub unseen : contains k.ledger.seen (replay_id c o) ≡ false

contains-nonempty : (ks : List Bytes) (k : Bytes) → contains ks k ≡ true → not (is_empty ks) ≡ true
unfolding contains is_empty
contains-nonempty [] k h = cc
contains-nonempty (x ∷ ks) k h = refl

not-false : (b : Bool) → (not b ≡ true) ↔ (b ≡ false)
not-false true = (λ h. cc, λ h. cc)
not-false false = (λ h. refl, λ h. refl)

guards :
    (p q r s : Bool)
    → (guard p without_anchors >> (guard q not_anchor >> (guard r bad_signature >> guard s replay)))
      ≡ ok tt
    → (q ≡ true) × (r ≡ true) × (s ≡ true)
guards true true true true h = (refl, refl, refl)
guards true true true false h = cc
guards true true false s h = cc
guards true false r s h = cc
guards false q r s h = cc

verify_iff :
    (c : Crypto) (o : KillOrder) (k : KillSequence) → (verify c o k ≡ ok tt) ↔ IsAuthentic c o k
unfolding verify
verify_iff c o k = (to, from)
  where
    to : verify c o k ≡ ok tt → IsAuthentic c o k
    to h =
        let (enrolled, signed, fresh) =
          guards (not (is_empty k.anchors.keys)) (contains k.anchors.keys o.anchor)
            (c.ed_verify o.anchor (signing_domain o.anchor o.nonce o.reason) o.sig)
            (not (contains k.ledger.seen (replay_id c o))) h in
        record {
          enrolled = enrolled;
          signed = signed;
          unseen = (not-false (contains k.ledger.seen (replay_id c o))).0 fresh;
        }

    from : IsAuthentic c o k → verify c o k ≡ ok tt
    from v =
        rw (contains-nonempty k.anchors.keys o.anchor v.enrolled, v.enrolled, v.signed, v.unseen)
          refl

receipt_of :
    {r receipt : SnapshotReceipt}
    → ◌≡◌ {A = Result KillReject SnapshotReceipt} (ok r) (ok receipt)
    → r ≡ receipt
receipt_of {r} h = ap (get r) h
  where
    get : SnapshotReceipt → Result KillReject SnapshotReceipt → SnapshotReceipt
    get d (ok s) = s
    get d (err e) = d

-- What an authentic order does, when the confirmer answers `snapshot`.
handle_authentic :
    (c : Crypto) (o : KillOrder) (snapshot : Result Bytes SnapshotReceipt) (k : KillSequence)
    → IsAuthentic c o k
    → handle c o snapshot k ≡ after_verify c o snapshot k
unfolding handle
handle_authentic c o snapshot k v = ap (λ r. if_verified r c o snapshot k) ((verify_iff c o k).1 v)

handle_refused :
    (c : Crypto) (o : KillOrder) (snapshot : Result Bytes SnapshotReceipt) (k : KillSequence)
    (e : KillReject)
    → verify c o k ≡ err e
    → handle c o snapshot k ≡ (err e, k)
unfolding handle
handle_refused c o snapshot k e h = ap (λ r. if_verified r c o snapshot k) h

-- `handle` reports a receipt exactly when the order is signed by an enrolled anchor over its anchor,
-- nonce and reason, its id was not in the ledger, and the confirmer gave that receipt. The id is the
-- hash of those three, so that a nonce seen under another reason does not count as seen.
pub handle_iff :
    (c : Crypto) (o : KillOrder) (snapshot : Result Bytes SnapshotReceipt) (k : KillSequence)
    (receipt : SnapshotReceipt)
    → ((handle c o snapshot k).0 ≡ ok receipt) ↔ (IsAuthentic c o k × (snapshot ≡ ok receipt))
unfolding after_verify
handle_iff c o snapshot k receipt = (to (Result-cases (verify c o k)), from)
  where
    confirmed :
        (r : Result Bytes SnapshotReceipt) → (after_verify c o r k).0 ≡ ok receipt → r ≡ ok receipt
    confirmed (ok r) h = ap ok (receipt_of h)
    confirmed (err m) h = cc

    to :
        ((u : Unit {0}) × (verify c o k ≡ ok u)) ⊎ ((e : KillReject) × (verify c o k ≡ err e))
        → (handle c o snapshot k).0 ≡ ok receipt
        → IsAuthentic c o k × (snapshot ≡ ok receipt)
    to (inl (u, v)) h =
        let a = (verify_iff c o k).0 v in
        (a, confirmed snapshot (rw (handle_authentic c o snapshot k a) at h))
    to (inr (e, v)) h = cc (rw (handle_refused c o snapshot k e v) at h)

    from : IsAuthentic c o k × (snapshot ≡ ok receipt) → (handle c o snapshot k).0 ≡ ok receipt
    from (v, s) = rw (s, handle_authentic c o (ok receipt) k v) refl

-- The state that an outcome of `handle` should leave.
abbrev pub state_after : KillState → Bytes → Result KillReject SnapshotReceipt → KillState
state_after before reason (ok receipt) = halted receipt reason
state_after before reason (err e) = before

-- The hub's state changes only by success: when `handle` reports an error, whichever, the hub is in
-- the state it was in; when it reports a receipt, the hub is halted on it for the order's reason.
pub handle-state :
    (c : Crypto) (o : KillOrder) (snapshot : Result Bytes SnapshotReceipt) (k : KillSequence)
    → (handle c o snapshot k).1.state ≡ state_after k.state o.reason (handle c o snapshot k).0
unfolding after_verify
handle-state c o snapshot k = elim (Result-cases (verify c o k)) [
  | inl (u, v) ↦ rw (handle_authentic c o snapshot k ((verify_iff c o k).0 v)) (obeyed snapshot)
  | inr (e, v) ↦ rw (handle_refused c o snapshot k e v) refl
]
  where
    obeyed :
        (snapshot : Result Bytes SnapshotReceipt)
        → (after_verify c o snapshot k).1.state
          ≡ state_after k.state o.reason (after_verify c o snapshot k).0
    obeyed (ok r) = refl
    obeyed (err m) = refl

-- After `handle` of an authentic order, even when its snapshot failed, the order is refused as a
-- replay.
pub handle-once :
    (c : Crypto) (o : KillOrder) (snapshot : Result Bytes SnapshotReceipt) (k : KillSequence)
    → IsAuthentic c o k
    → verify c o (handle c o snapshot k).1 ≡ err replay
unfolding after_verify verify
handle-once c o snapshot k v = rw (handle_authentic c o snapshot k v) (refused snapshot)
  where
    now_seen : contains (insert (replay_id c o) k.ledger.seen) (replay_id c o) ≡ true
    now_seen =
        rw (contains-insert (replay_id c o) (replay_id c o) k.ledger.seen, ≟-refl (replay_id c o))

    refused :
        (snapshot : Result Bytes SnapshotReceipt)
        → verify c o (after_verify c o snapshot k).1 ≡ err replay
    refused (ok r) =
        rw (contains-nonempty k.anchors.keys o.anchor v.enrolled, v.enrolled, v.signed, now_seen)
          refl
    refused (err m) =
        rw (contains-nonempty k.anchors.keys o.anchor v.enrolled, v.enrolled, v.signed, now_seen)
          refl
