-- ===== src/ProtoWire/Bpv7/Fifo.antt =====
-- The order in which the bundles of a destination leave the queue of
-- bebop2/proto-wire/src/bpv7.rs.
use open_bebop.Prelude.Bytes.{Bytes, bytes_eq}
use open_bebop.ProtoWire.Bpv7.Bundle.{Bundle}
use open_bebop.ProtoWire.Bpv7.StoreForward.{StoreForward}
