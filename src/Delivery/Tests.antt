-- ===== src/Delivery/Tests.antt =====
-- bebop2/delivery-domain/src/hub_ring.rs, finalization.rs and pod.rs on small inputs.
use open_bebop.Prelude.{
  ℕ, ◌≡◌, ◌↔◌, ◌⊎◌, refl, not, true, some, List, [], ◌∷◌, replicate, retain, contains, insert,
  Distinct, ◌≟◌, ok, err, All, arith,
}
use open_bebop.Prelude.Bytes.{Bytes, bytes_eq, bytes_beq, le_bytes}
use open_bebop.Prelude.ByteOrder.{bytes_le}
use open_bebop.Prelude.Sort
use open_bebop.Crypto.{Crypto, Collision}
use open_bebop.ProtoCap.Matcher.{hrw_weight, fnv1a, fnv1a_from}
use open_bebop.Delivery.HubRing.{Hub, hub_eq, Ownership, ranked, assign, owner_hub}
use open_bebop.Delivery.HubRing.Laws.{owner_hub-assign, owner_hub-failover}
use open_bebop.Delivery.Finalization.{Finalization, reconcile}
use open_bebop.Delivery.Finalization.Conflict.{Agree}
use open_bebop.Delivery.Finalization.Laws.{IsBound, Settles, reconcile_iff}
use open_bebop.Delivery.Finalization
use open_bebop.Delivery.Pod.{HybridSig, HubSigner, DeliveryClaim, digest, is_settled}
use open_bebop.Delivery.Pod
use open_bebop.Delivery.Pod.Quorum.{Quorum, is_settled_iff, digest-pins}

abbrev hub : ℕ → Hub
hub n = record { pubkey = n ∷ [] }

abbrev hubs : List Hub
hubs = hub 1 ∷ hub 2 ∷ hub 3 ∷ []

abbrev owned : Ownership
owned = record { owner = hub 1; replicas = hub 3 ∷ hub 2 ∷ [] }

ranked_hubs : assign 7 hubs 2 ≡ some owned
unfolding assign ranked Sort.sort Sort.insert_sorted hrw_weight fnv1a fnv1a_from le_bytes bytes_le
ranked_hubs = refl

hubs-Distinct : Distinct hubs
unfolding contains bytes_beq
hubs-Distinct = (refl, (refl, (refl, tt)))

owner_hub-assign_example : owner_hub 7 hubs ≡ some (hub 1)
owner_hub-assign_example = owner_hub-assign 7 hubs 2 owned ranked_hubs

owner_hub-failover_example : owner_hub 7 (retain (λ h. not (h ≟ hub 1)) hubs) ≡ some (hub 3)
owner_hub-failover_example =
    owner_hub-failover 7 hubs 2 owned (hub 3) (hub 2 ∷ []) hubs-Distinct ranked_hubs refl

abbrev h : Bytes → Bytes
h text = text

abbrev delivered_here : Finalization
delivered_here = Finalization.new h 7 0x15 (1 ∷ []) 1 []

abbrev cancelled_there : Finalization
cancelled_there = Finalization.new h 7 0x17 (2 ∷ []) 2 []

abbrev delivered_there : Finalization
delivered_there = Finalization.new h 7 0x15 (2 ∷ []) 2 []

abbrev pending_there : Finalization
pending_there = Finalization.new h 7 0x10 (2 ∷ []) 2 []

split_window :
    reconcile h (delivered_here ∷ cancelled_there ∷ []) ≡ err (delivered_here, cancelled_there)
unfolding reconcile Finalization.check_links Finalization.verify_chain Finalization.detect_conflict
    Finalization.conflict_from Finalization.conflict_with Finalization.split Finalization.decide
    Finalization.new Finalization.link_bytes le_bytes bytes_beq
split_window = refl

-- A pending record does not count against a delivered one, and which comes first decides.
mixed_window :
    (reconcile h (pending_there ∷ delivered_here ∷ []) ≡ ok 0x10)
    × (reconcile h (delivered_here ∷ pending_there ∷ []) ≡ ok 0x15)
unfolding reconcile Finalization.check_links Finalization.verify_chain Finalization.detect_conflict
    Finalization.conflict_from Finalization.conflict_with Finalization.split Finalization.decide
    Finalization.new Finalization.link_bytes le_bytes bytes_beq
mixed_window = (refl, refl)

reconcile_iff_example :
    ((reconcile h (delivered_here ∷ delivered_there ∷ []) ≡ ok 0x15) ↔ (
      All (IsBound h) (delivered_here ∷ delivered_there ∷ [])
      × Agree delivered_here.order_id (delivered_here ∷ delivered_there ∷ [])
      × (0x15 ≡ delivered_here.status)))
    × (((reconcile h (delivered_here ∷ delivered_there ∷ []) ≡ ok 0x15)
          × All (Settles delivered_here.order_id) (delivered_here ∷ delivered_there ∷ []))
        ↔ All
            (λ g. IsBound h g × Settles delivered_here.order_id g × (g.status ≡ 0x15))
            (delivered_here ∷ delivered_there ∷ []))
reconcile_iff_example = reconcile_iff h delivered_here (delivered_there ∷ []) 0x15

-- A signature is good whenever it is there.
abbrev toy : Crypto
toy = record {
  sha3 = λ text. text;
  ed_sign = λ seed text. seed;
  ed_verify = λ key text sig. true;
  pq_sign = λ key text random. key;
  pq_verify = λ key text sig. true;
}

abbrev hub_keys : HubSigner
hub_keys = record { classical_pk = replicate 32 1; pq_pk = replicate 1952 1 }

abbrev signature : HybridSig
signature = record { classical = replicate 64 1; pq = replicate 3309 1 }

abbrev claim : ℕ → DeliveryClaim
claim place = record {
  order_id = 7;
  location = place ∷ [];
  timestamp = 1000;
  signers = hub_keys ∷ hub_keys ∷ [];
  threshold = 1;
  sigs = (0, signature) ∷ [];
}

settled : is_settled toy (claim 1) ≡ ok true
unfolding is_settled Pod.valid_signers Pod.verified Pod.verify_one Pod.verify_with Pod.pq_leg insert
    contains
settled = refl

is_settled_iff_example : (true ≡ true) ↔ Quorum toy (claim 1)
is_settled_iff_example = is_settled_iff toy (claim 1) true settled

same_digest : digest toy (claim 1) ≡ digest toy (claim 1)
same_digest = refl

digest-pins_example :
    (((claim 1).order_id ≡ (claim 1).order_id)
      × ((claim 1).location ≡ (claim 1).location)
      × ((claim 1).timestamp ≡ (claim 1).timestamp))
    ⊎ Collision toy.sha3
digest-pins_example =
    digest-pins toy (claim 1) (claim 1) (omega arith) (omega arith) (omega arith) (omega arith)
      (omega arith) (omega arith) same_digest
