-- ===== src/Lib.antt =====
-- The protocol stack of OpenBebop: capabilities and their gate, the event log and its
-- anti-entropy, the signed pull between peers, bundles in custody, the ownership and settlement of
-- orders, and the controls of a hub.
--
-- How the parts work together. A courier's frame carries a capability (what its subject may do,
-- until when), a payload and two signatures. The node passes it to the hybrid gate, which asks
-- for a chain of delegations from an enrolled anchor to the subject, for the red-line policy and
-- the revocation set to let it through, for the signatures, and for a nonce it has not seen.
-- Accepted payloads are delivery events, whose codecs and status tables every receiver runs.
-- State that nodes share is an append-only hash chain; two nodes compare digests and pull the
-- missing suffix. Where no connection stands, bundles wait in a store-and-forward queue for an
-- ack. Peers also pull signed frames from one another, by a watermark for each author, and compare
-- Merkle roots. An order belongs to the hub that rendezvous hashing picks; a delivery is settled by
-- signatures of k of n hubs, and the records of a healed partition are merged unless they conflict.
-- An inbound event passes a definition-of-done gate before it is applied. A hub's policy changes by
-- revisions that a gate lets through, a breach alarm is a frame of its own, and a kill order stops
-- the hub after a snapshot is confirmed.
--
-- Files, with the code that they model (each operation keeps the name it has there; a name that
-- several of the modules declare is told apart by its module):
--   Crypto                    the calls of bebop2/core's primitives: arguments of the model
--   ProtoCap/Scope            bebop2/proto-cap/src/scope.rs
--   ProtoCap/Tlv              bebop2/proto-cap/src/tlv.rs
--   ProtoCap/Error            bebop2/proto-cap/src/error.rs
--   ProtoCap/Capability       bebop2/proto-cap/src/capability.rs
--   ProtoCap/Roster           bebop2/proto-cap/src/roster.rs (`contains` is in_roster)
--   ProtoCap/Revocation       bebop2/proto-cap/src/revocation.rs
--   ProtoCap/Redline          bebop2/proto-cap/src/redline.rs (`RedLineGate::check` is check)
--   ProtoCap/SignedFrame      bebop2/proto-cap/src/signed_frame.rs
--   ProtoCap/HybridGate       bebop2/proto-cap/src/hybrid_gate.rs, and `SignedFrame::verify`
--   ProtoCap/ClaimMachine     bebop2/proto-cap/src/claim_machine.rs
--   ProtoCap/EventDict        bebop2/proto-cap/src/event_dict.rs (Codec holds the payloads)
--   ProtoCap/Matcher          bebop2/proto-cap/src/matcher.rs
--   ProtoCap/Issuance         bebop2/proto-cap/src/node_id.rs (identity and issuance budget)
--   Core/EventLog             bebop2/core/src/event_log.rs
--   Core/AntiEntropy          bebop2/core/src/anti_entropy.rs
--   ProtoWire/Bpv7            bebop2/proto-wire/src/bpv7.rs (PrimaryBlock, Bundle, StoreForward)
--   ProtoWire/TransportPolicy bebop2/proto-wire/src/transport_policy.rs (TokenBucket)
--   ProtoWire/SyncFrame       bebop2/proto-wire/src/sync_pull.rs (SyncScope, SyncFrame)
--   ProtoWire/MerkleLog       bebop2/proto-wire/src/sync_pull.rs (MerkleLog)
--   ProtoWire/SyncPeer        bebop2/proto-wire/src/sync_pull.rs (PullRequest, SyncPeer)
--   ProtoWire/Framing         bebop2/proto-wire/src/framing.rs and envelope.rs
--   Delivery/HubRing          bebop2/delivery-domain/src/hub_ring.rs
--   Delivery/Finalization     bebop2/delivery-domain/src/finalization.rs
--   Delivery/Pod              bebop2/delivery-domain/src/pod.rs
--   Node/HubPolicy            bebop2/mesh-node/src/hub_policy.rs (Interleaving: overlapping calls)
--   Node/Breach               bebop2/mesh-node/src/breach.rs
--   Node/Dod                  bebop2/mesh-node/src/dod.rs
--   Node/Listeners            bebop2/mesh-node/src/listener_reconcile.rs
--   Delivery/Transition       bebop2/delivery-domain/src/lib.rs (the local table)
--   Node/KillSwitch           bebop2/mesh-node/src/kill_switch.rs
-- The other child modules hold proofs (ProtoCap/EventDict/Codec and the children of ProtoWire/Bpv7
-- named above hold definitions); the modules whose names end in Tests run the theorems on concrete
-- inputs. Prelude holds what all share: lists over the native numbers,
-- results and their chains, equality tests, filters, byte strings, slices, maps, sets and sorting.
--
-- How code becomes definitions. A `&mut self` method is a function from state to state, paired
-- with its result. `Result` chains are do blocks. A `HashSet` is the list of its members, newest
-- first, with the test before the insertion; where the source walks one whose order matters (the
-- pruning of the replay ledger), the order is an argument. A map from destinations to nonces is a
-- function. Byte arrays are lists of numbers; their widths are hypotheses where a theorem needs
-- them. Machine integers keep their wrap-around at the casts (`as u8`, `as u16`, `as u32`) and in
-- the token bucket's sum and product, and an `i64` is its bit pattern. Loops are recursion on the
-- list that they walk. Three run on fuel: the walk of a replay, on the number of entries, which
-- Core/EventLog/Replay proves enough, the climb to a Merkle root, on the number of leaves, which
-- ProtoWire/MerkleLog/Root proves enough, and the digits of a 32-bit number, on 10. The mutex of
-- the gate is held for the whole step that reads and writes the ledger, so that a call is one
-- transition; a revision of the hub policy is two, since its lock is released in between. A
-- map is the list of its entries. A panic that a caller can provoke is a value (Delivery/Pod).
--
-- Not modelled: hashing and signing themselves (the record Crypto; tamper evidence is stated up
-- to a collision of the hash), a poisoned lock, UTF-8 validation (an argument), the texts of
-- errors, files and their parsing, transports, discovery, the remaining node services, the numerics
-- of bebop2/core, and the terminal agent of crates/bebop.
pub mod Prelude
pub mod Crypto
pub mod ProtoCap
pub mod Core
pub mod ProtoWire
pub mod Node
pub mod Delivery
