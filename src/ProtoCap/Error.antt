-- ===== src/ProtoCap/Error.antt =====
-- bebop2/proto-cap/src/error.rs: the refusals of the capability layer.
use open_bebop.Prelude.{Result}

pub data CapError : Type 0 where
  classical_verify_failed pq_verify_failed hybrid_incomplete nonce_rejected expired : CapError
  encode bad_length unknown_issuer chain_broken scope_violation subject_mismatch : CapError
  bad_signature entropy_unavailable lock_poisoned revoked red_line_violation : CapError

abbrev pub CapResult : Type 0 → Type 0
CapResult A = Result CapError A
