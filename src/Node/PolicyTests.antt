-- ===== src/Node/PolicyTests.antt =====
-- bebop2/mesh-node/src/hub_policy.rs, breach.rs, listener_reconcile.rs and dod.rs
-- on small inputs.
use open_bebop.Prelude.{
  Distinct, nat_eq, ◌≡◌, ◌↔◌, ◌⊎◌, refl, List, insert, false, true, none, Elem, [], ◌∷◌, replicate,
  contains, ok, ◌%◌, ◌^◌, ◌+◌, ◌≟◌, take,
}
use open_bebop.Prelude.Bytes.{Bytes, bytes_eq, bytes_beq}
use open_bebop.Prelude.Sort.{sort}
use open_bebop.Prelude.ByteOrder.{bytes_le}
use open_bebop.Crypto.{Crypto}
use open_bebop.ProtoCap.SignedFrame.{SignedFrame, binding_signing_domain}
use open_bebop.ProtoCap.SignedFrame.Laws.{swap_pq}
use open_bebop.Node.HubPolicy.{
  HubPolicy, deny_all_default, first_widening, stamp, apply_revision, applied, rejected,
}
use open_bebop.Node.HubPolicy.Floor.{Within, apply_revision-cases}
use open_bebop.Node.HubPolicy.Interleaving.{
  Store, Reach, load, swap, stop, then_, reach-floor, reach-twice,
}
use open_bebop.Node.Listeners.{open_bind, close_bind, members, collect, difference, reconcile}
use open_bebop.Node.Listeners.Laws.{reconcile_listeners_iff}
use open_bebop.Node.Dod.{Event, DodGate}
use open_bebop.Node.Dod
use open_bebop.Node.Dod.Once.{Arrival, Presented, let_through, let_through-once}
use open_bebop.Node.Breach.{sign, verify}
use open_bebop.Node.Breach.Laws.{SignsFor, verify-sign, verify-swap_pq}

abbrev h : Bytes → Bytes
h text = take 4 text

abbrev live : HubPolicy
live = record (deny_all_default h) { red_line_allow = (1 ∷ []) ∷ [] }

abbrev narrower : HubPolicy
narrower = deny_all_default h

apply_revision-cases_example :
    (Within live.red_line_allow narrower.red_line_allow
      × (apply_revision h narrower live ≡ (
        stamp h live narrower,
        applied ((live.revision + 1) % 2 ^ 64) (stamp h live narrower).policy_sha3,
      )))
    ⊎ ((cat : Bytes) × Elem cat narrower.red_line_allow
        × (contains live.red_line_allow cat ≡ false)
        × (apply_revision h narrower live ≡ (live, rejected cat)))
apply_revision-cases_example = apply_revision-cases h narrower live

narrower_passes : first_widening live.red_line_allow narrower.red_line_allow ≡ none
unfolding first_widening deny_all_default
narrower_passes = refl

live_passes : first_widening live.red_line_allow live.red_line_allow ≡ none
unfolding first_widening contains bytes_beq
live_passes = refl

abbrev idle : Store
idle = record { live = live; pending = [] }

abbrev reading : Store
reading = record { live = live; pending = (live, narrower) ∷ [] }

abbrev written : Store
written = record { live = stamp h live narrower; pending = [] }

abbrev run : Reach h idle written
run =
    then_ idle reading written
      (then_ idle idle reading (stop idle) (load idle reading narrower refl))
      (swap reading written [] [] live narrower refl narrower_passes refl)

reach-floor_example : Within idle.live.red_line_allow written.live.red_line_allow
reach-floor_example = reach-floor h idle written refl run

reach-twice_example :
    Reach h idle (record { live = stamp h live live; pending = (live, narrower) ∷ [] })
    × Reach h (record { live = stamp h live live; pending = (live, narrower) ∷ [] }) written
    × ((stamp h live live).revision ≡ (stamp h live narrower).revision)
reach-twice_example = reach-twice h live live narrower live_passes narrower_passes

-- A signature is good when it starts as the key does; a seed is its own public key.
abbrev toy : Crypto
toy = record {
  sha3 = λ text. text;
  ed_sign = λ seed text. replicate 64 5;
  ed_verify = λ key text sig. take 1 sig ≟ take 1 key;
  pq_sign = λ key text random. key;
  pq_verify = λ key text sig. sig ≟ key;
}

abbrev public_key : Bytes → Bytes
public_key seed = seed

abbrev alert : Bytes
alert = replicate 40 3

abbrev alarm : SignedFrame
alarm = sign toy public_key alert (5 ∷ []) (6 ∷ []) (6 ∷ []) (1 ∷ []) 9 []

node_keys : SignsFor toy public_key (5 ∷ []) (6 ∷ []) (6 ∷ []) []
unfolding bytes_beq
node_keys = record { width = λ m. refl; classical = λ m. refl; pq = λ m. refl }

other_key : toy.pq_verify (8 ∷ []) (binding_signing_domain alarm) (8 ∷ []) ≡ true
unfolding bytes_beq
other_key = refl

alarm_taken : verify toy none alarm ≡ ok alert
alarm_taken =
    verify-sign toy public_key alert (5 ∷ []) (6 ∷ []) (6 ∷ []) (1 ∷ []) 9 [] node_keys refl

verify-swap_pq_example : verify toy none (swap_pq (8 ∷ []) (8 ∷ []) alarm) ≡ ok alert
verify-swap_pq_example = verify-swap_pq toy none alarm alert (8 ∷ []) (8 ∷ []) alarm_taken other_key

-- Ports 7 and 8 are open, 8 and 9 are wanted.
abbrev opened : List Bytes
opened = (8 ∷ []) ∷ (7 ∷ []) ∷ []

abbrev wanted : List Bytes
wanted = (9 ∷ []) ∷ (8 ∷ []) ∷ (9 ∷ []) ∷ []

reconcile_example : reconcile opened wanted ≡ open_bind (9 ∷ []) ∷ close_bind (7 ∷ []) ∷ []
unfolding reconcile collect members difference contains insert bytes_beq sort bytes_le
reconcile_example = refl

reconcile_listeners_iff_example :
    (Elem (open_bind (9 ∷ [])) (reconcile opened wanted)
      ↔ (Elem (9 ∷ []) wanted × (Elem (9 ∷ []) opened → ⊥)))
    × (Elem (close_bind (9 ∷ [])) (reconcile opened wanted)
        ↔ (Elem (9 ∷ []) opened × (Elem (9 ∷ []) wanted → ⊥)))
reconcile_listeners_iff_example = reconcile_listeners_iff opened wanted (9 ∷ [])

-- Event 7 comes late, then in time, then again.
abbrev arrivals : List Arrival
arrivals =
    record { event = record { id = 7; payload = 1 ∷ [] }; now = 9; expires_at = 5 }
    ∷ record { event = record { id = 7; payload = 1 ∷ [] }; now = 4; expires_at = 5 }
    ∷ record { event = record { id = 7; payload = 2 ∷ [] }; now = 4; expires_at = 0 }
    ∷ []

let_through_example : let_through arrivals Dod.new ≡ 7 ∷ []
unfolding let_through Dod.admit Dod.new contains insert
let_through_example = refl

let_through-once_example :
    Distinct (let_through arrivals Dod.new)
    × (Elem 7 (let_through arrivals Dod.new)
        ↔ ((contains Dod.new.applied 7 ≡ false) × Presented 7 arrivals))
let_through-once_example = let_through-once arrivals Dod.new 7
