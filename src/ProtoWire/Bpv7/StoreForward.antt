-- ===== src/ProtoWire/Bpv7/StoreForward.antt =====
-- `StoreForward` of bebop2/proto-wire/src/bpv7.rs: custody of the bundles that wait for an ack.
use open_bebop.Prelude.{
  ℕ, ◌+◌, ◌-◌, ◌^◌, Bool, not, Option, none, some, List, [], ◌∷◌, ◌++◌, map, retain, ltb,
  if◌then◌else◌, min, ◌≟◌, contains,
}
use open_bebop.Prelude.Bytes.{Bytes, bytes_eq}
use open_bebop.ProtoWire.Bpv7.Bundle.{Bundle}

-- The queue, oldest first, and the nonces that wait for each destination. The source's map from
-- destinations is a function here: it removes empty entries, and treats an absent one as empty.
pub record StoreForward : Type 0 where
  pub queue : List Bundle
  pub undelivered : Bytes → List Bytes

abbrev pub update : (Bytes → List Bytes) → Bytes → List Bytes → Bytes → List Bytes
update m dest v d = if d ≟ dest then v else m d

unfoldable pub new : StoreForward
new = record { queue = []; undelivered = λ d. [] }

unfoldable pub enqueue : Bundle → StoreForward → StoreForward
enqueue b s =
    let dest = b.primary.dest in
    record {
      queue = s.queue ++ b ∷ [];
      undelivered = update s.undelivered dest (s.undelivered dest ++ b.primary.nonce ∷ []);
    }

-- `queue.iter().position(|b| b.primary.nonce == nonce)`, with the bundle there.
unfoldable pub find_nonce : Bytes → List Bundle → Option Bundle
find_nonce nonce [] = none
find_nonce nonce (b ∷ bs) = if b.primary.nonce ≟ nonce then some b else find_nonce nonce bs

-- `queue.remove(position)`
unfoldable pub remove_nonce : Bytes → List Bundle → List Bundle
remove_nonce nonce [] = []
remove_nonce nonce (b ∷ bs) = if b.primary.nonce ≟ nonce then bs else b ∷ remove_nonce nonce bs

-- `v.retain(|n| *n != nonce)`
abbrev pub without : Bytes → List Bytes → List Bytes
without nonce v = retain (λ n. not (n ≟ nonce)) v

unfoldable pub ack : Bytes → Bytes → StoreForward → StoreForward
unfolding remove_nonce
ack dest nonce s = record {
  queue = remove_nonce nonce s.queue;
  undelivered = update s.undelivered dest (without nonce (s.undelivered dest));
}

unfoldable pub mark_delivered : Bytes → Bytes → StoreForward → StoreForward
unfolding ack
mark_delivered dest nonce s = ack dest nonce s

-- The first waiting nonce, if any, and then the first bundle in the queue that has it.
unfoldable pub take_waiting : Bytes → List Bytes → StoreForward → Option Bundle × StoreForward
take_waiting dest [] s = (none, s)
take_waiting dest (nonce ∷ later) s = elim (find_nonce nonce s.queue) [
  | none ↦ (none, s)
  | some b ↦ (some b, ack dest nonce s)
]

unfoldable pub dequeue_for : Bytes → StoreForward → Option Bundle × StoreForward
unfolding take_waiting
dequeue_for dest s = take_waiting dest (s.undelivered dest) s

-- `creation_ts.saturating_add(lifetime) < now`
unfoldable pub is_expired : ℕ → Bundle → Bool
is_expired now b = ltb (min (b.primary.creation_ts + b.primary.lifetime) (2 ^ 64 - 1)) now

unfoldable pub without_all : List Bytes → List Bytes → List Bytes
without_all [] v = v
without_all (n ∷ ns) v = without_all ns (without n v)

abbrev pub nonces : List Bundle → List Bytes
nonces bs = map (λ b. b.primary.nonce) bs

unfoldable pub expire : ℕ → StoreForward → List Bytes × StoreForward
unfolding is_expired without_all
expire now s =
    let dropped = nonces (retain (is_expired now) s.queue) in
    (
      dropped,
      record {
        queue = retain (λ b. not (is_expired now b)) s.queue;
        undelivered = λ d. without_all dropped (s.undelivered d);
      },
    )

unfoldable pub retry_oldest_first : StoreForward → List Bundle
retry_oldest_first s = s.queue

unfoldable pub pending : Bytes → StoreForward → List Bundle
pending dest s = retain (λ b. contains (s.undelivered dest) b.primary.nonce) s.queue
