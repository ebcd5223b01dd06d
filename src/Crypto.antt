-- ===== src/Crypto.antt =====
-- The primitives of bebop2/core that the modelled crates call: `hash::sha3_256`, `sign::{sign,
-- verify}` (Ed25519) and `pq_dsa::{sign, verify}` (ML-DSA-65). They are arguments of the model.
use open_bebop.Prelude.{Bool, ◌≡◌, ◌≢◌}
use open_bebop.Prelude.Bytes.{Bytes}

pub record Crypto : Type 0 where
  pub sha3 : Bytes → Bytes
  pub ed_sign : Bytes → Bytes → Bytes  -- seed, message
  pub ed_verify : Bytes → Bytes → Bytes → Bool  -- public key, message, signature
  pub pq_sign : Bytes → Bytes → Bytes → Bytes  -- secret key, message, randomness
  pub pq_verify : Bytes → Bytes → Bytes → Bool  -- public key, message, signature

-- Two different texts with one hash. Tamper evidence is stated up to such a pair, since a hash
-- with outputs of 32 bytes cannot be injective.
pub record Collision (h : Bytes → Bytes) : Type 0 where
  pub left : Bytes
  pub right : Bytes
  pub differ : left ≢ right
  pub same_hash : h left ≡ h right
