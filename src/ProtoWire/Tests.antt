-- ===== src/ProtoWire/Tests.antt =====
-- bebop2/proto-wire/src/transport_policy.rs on a bucket, and bpv7.rs on two bundles for one
-- destination and one for another.
use open_bebop.Prelude.{
  ℕ, ◌+◌, ◌-◌, ◌*◌, ◌≤◌, ◌≡◌, refl, false, some, [], ◌∷◌, ◌++◌, replicate, ok, arith, contains,
}
use open_bebop.Prelude.Bytes.{Bytes, bytes_eq, bytes_beq}
use open_bebop.ProtoWire.TransportPolicy.{TokenBucket}
use open_bebop.ProtoWire.TransportPolicy
use open_bebop.ProtoWire.TransportPolicy.Laws.{granted, Ascending, granted_bounded}
use open_bebop.ProtoWire.Bpv7.Bundle.{Bundle, custody_bytes}
use open_bebop.ProtoWire.Bpv7.Bundle
use open_bebop.ProtoWire.Bpv7.StoreForward.{StoreForward, new, enqueue, nonces}
use open_bebop.ProtoWire.Bpv7.Codec.{IsSizedPrimary, bundle_round_trip}
use open_bebop.ProtoWire.Bpv7.Custody.{nonce_of}

abbrev bucket : TokenBucket
bucket = TransportPolicy.new 2 1

ascending : Ascending bucket.last (1 ∷ 1 ∷ 1 ∷ 2 ∷ []) 2
unfolding TransportPolicy.new
ascending = omega arith

granted_bounded_example :
    granted bucket (1 ∷ 1 ∷ 1 ∷ 2 ∷ []) ≤ bucket.tokens + (2 - bucket.last) * bucket.refill_per_sec
granted_bounded_example = granted_bounded 2 bucket (1 ∷ 1 ∷ 1 ∷ 2 ∷ []) ascending

abbrev alice : Bytes
alice = replicate 32 1

abbrev bob : Bytes
bob = replicate 32 2

abbrev make_bundle : Bytes → ℕ → Bundle
make_bundle dest n = record {
  primary = record {
    dest = dest;
    source = replicate 32 9;
    creation_ts = 1000;
    lifetime = 60;
    nonce = replicate 8 n;
  };
  custody_sig = some (7 ∷ []);
  payload = 1 ∷ 2 ∷ [];
}

abbrev one : Bundle
one = make_bundle alice 1

abbrev two : Bundle
two = make_bundle bob 2

abbrev three : Bundle
three = make_bundle alice 3

sized : IsSizedPrimary one.primary
sized = record {
  dest = refl;
  source = refl;
  creation_ts = omega arith;
  lifetime = omega arith;
  nonce = refl;
}

bundle_round_trip_example : Bundle.from_bytes (Bundle.to_bytes one ++ (5 ∷ [])) ≡ ok one
bundle_round_trip_example = bundle_round_trip one (5 ∷ []) sized (omega arith) (omega arith)

abbrev waiting_two : StoreForward
waiting_two = enqueue two (enqueue one new)

abbrev waiting : StoreForward
waiting = enqueue three waiting_two

fresh_three : contains (nonces waiting_two.queue) (nonce_of three) ≡ false
unfolding enqueue new contains bytes_beq
fresh_three = refl
