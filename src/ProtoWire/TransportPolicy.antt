-- ===== src/ProtoWire/TransportPolicy.antt =====
-- `TokenBucket` of bebop2/proto-wire/src/transport_policy.rs: a budget of accepts per peer. Its
-- mutex is held for the whole call, so a call is one transition.
pub mod Laws
use open_bebop.Prelude.{ℕ, ◌+◌, ◌-◌, ◌*◌, ◌%◌, ◌^◌, min, Bool, true, false, ◌==◌, if◌then◌else◌}

pub record TokenBucket : Type 0 where
  pub capacity : ℕ
  pub refill_per_sec : ℕ
  pub tokens : ℕ
  pub last : ℕ

unfoldable pub new : ℕ → ℕ → TokenBucket
new capacity refill_per_sec = record {
  capacity = capacity;
  refill_per_sec = refill_per_sec;
  tokens = capacity;
  last = 0;
}

-- `(tokens as u64 + elapsed * refill as u64).min(capacity as u64)`, with `elapsed` saturated at 0.
-- The `u64` sum and product wrap, as they do in a release build.
unfoldable pub refilled : ℕ → TokenBucket → ℕ
refilled now b = min ((b.tokens + (now - b.last) * b.refill_per_sec % 2 ^ 64) % 2 ^ 64) b.capacity

-- The test and, where there is a token, the write of the remaining ones with the time.
unfoldable pub try_acquire : ℕ → TokenBucket → Bool × TokenBucket
try_acquire now b =
    if refilled now b == 0
    then (false, b)
    else (true, record b { tokens = (refilled now b - 1) % 2 ^ 32; last = now })
