-- ===== src/ProtoWire/Bpv7.antt =====
-- bebop2/proto-wire/src/bpv7.rs: bundles, their encoding, and the store-and-forward queue.
pub mod PrimaryBlock
pub mod Bundle
pub mod StoreForward
pub mod Codec
pub mod Custody
pub mod Fifo
