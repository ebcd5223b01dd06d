-- ===== src/Delivery/Pod.antt =====
-- bebop2/delivery-domain/src/pod.rs: a proof of delivery, settled by k of n enrolled hubs.
pub mod Quorum
use open_bebop.Prelude.{
  ℕ, ◌≡◌, refl, Bool, true, false, not, ◌&&◌, Option, none, some, List, [], ◌∷◌, ◌++◌, length, take,
  get_elem?, retain, replicate, ltb, leb, ◌==◌, if◌then◌else◌, insert, nat_eq, Result, ok, err,
  guard, ok_or, ◌>>=◌, ◌>>◌,
}
use open_bebop.Prelude.Bytes.{Bytes, le_bytes}
use open_bebop.Crypto.{Crypto}

-- A slice out of range ends the thread, and so does a failed `assert!`.
pub data Panic : Type 0 where
  panicked : Panic

unfoldable pub canonical_claim : ℕ → Bytes → ℕ → Bytes
canonical_claim order_id location timestamp =
    le_bytes 8 order_id ++ (le_bytes 8 (length location) ++ (location ++ le_bytes 8 timestamp))

pub record HybridSig : Type 0 where
  pub classical : Bytes
  pub pq : Bytes

pub record HubSigner : Type 0 where
  pub classical_pk : Bytes
  pub pq_pk : Bytes

pub record DeliveryClaim : Type 0 where
  pub order_id : ℕ
  pub location : Bytes
  pub timestamp : ℕ
  pub signers : List HubSigner
  pub threshold : ℕ
  pub sigs : List (ℕ × HybridSig)

unfoldable pub new : ℕ → Bytes → ℕ → List HubSigner → ℕ → Result Panic DeliveryClaim
new order_id location timestamp signers threshold = do
  guard (leb 1 threshold && leb threshold (length signers)) panicked
  ok (record {
    order_id = order_id;
    location = location;
    timestamp = timestamp;
    signers = signers;
    threshold = threshold;
    sigs = [];
  })

unfoldable pub add_sig : ℕ → HybridSig → DeliveryClaim → DeliveryClaim × Bool
add_sig idx sig claim = if leb (length claim.signers) idx then (claim, false) else (
  record claim {
    sigs = retain (λ (s : ℕ × HybridSig). not (s.0 == idx)) claim.sigs ++ ((idx, sig) ∷ []);
  },
  true,
)

abbrev pub sig_count : DeliveryClaim → ℕ
sig_count claim = length claim.sigs

-- `a.copy_from_slice(&b[..n])`
abbrev pub first_bytes : ℕ → Bytes → Result Panic Bytes
first_bytes n b = guard (leb n (length b)) panicked >> ok (take n b)

abbrev pub pq_pk_from_bytes : Bytes → Result Panic Bytes
pq_pk_from_bytes b = first_bytes 1952 b

abbrev pub pq_sig_from_bytes : Bytes → Result Panic Bytes
pq_sig_from_bytes b = first_bytes 3309 b

module _ (c : Crypto) where
  unfoldable pub digest : DeliveryClaim → Bytes
  unfolding canonical_claim
  digest claim = c.sha3 (canonical_claim claim.order_id claim.location claim.timestamp)

  -- The post-quantum leg, which is looked at when the classical one holds.
  unfoldable pub pq_leg : HubSigner → Bytes → HybridSig → Result Panic Bool
  pq_leg s d sig = do
    pk ← pq_pk_from_bytes s.pq_pk
    pq ← pq_sig_from_bytes sig.pq
    ok (c.pq_verify pk d pq)

  unfoldable pub verify_with : Option HubSigner → Bytes → HybridSig → Result Panic Bool
  unfolding pq_leg
  verify_with none d sig = ok false
  verify_with (some s) d sig =
      if c.ed_verify s.classical_pk d sig.classical then pq_leg s d sig else ok false

  unfoldable pub verify_one : DeliveryClaim → ℕ → HybridSig → Result Panic Bool
  unfolding verify_with digest
  verify_one claim idx sig = verify_with (get_elem? claim.signers idx) (digest claim) sig

  -- The `HashSet` of the indices whose signatures verify.
  unfoldable pub verified : DeliveryClaim → List (ℕ × HybridSig) → Result Panic (List ℕ)
  unfolding verify_one
  verified claim [] = ok []
  verified claim ((idx, sig) ∷ sigs) = do
    valid ← verify_one claim idx sig
    others ← verified claim sigs
    ok (if valid then insert idx others else others)

  unfoldable pub valid_signers : DeliveryClaim → Result Panic ℕ
  unfolding verified
  valid_signers claim = do set ← verified claim claim.sigs; ok (length set)

  unfoldable pub is_settled : DeliveryClaim → Result Panic Bool
  unfolding valid_signers
  is_settled claim = do n ← valid_signers claim; ok (leb claim.threshold n)

  -- `any` stops at the first that does not verify.
  unfoldable pub any_unverified : DeliveryClaim → List (ℕ × HybridSig) → Result Panic Bool
  unfolding verify_one
  any_unverified claim [] = ok false
  any_unverified claim ((idx, sig) ∷ sigs) = do
    valid ← verify_one claim idx sig
    if valid then any_unverified claim sigs else ok true

  unfoldable pub any_tampered : DeliveryClaim → Result Panic Bool
  unfolding any_unverified
  any_tampered claim = any_unverified claim claim.sigs

-- `ed_keygen` gives the public key of a seed, `keygen_derivable` a pair of keys.
module _ (c : Crypto) (ed_keygen : Bytes → Bytes) (keygen_derivable : Bytes → Bytes × Bytes) where
  unfoldable pub sign_claim : Bytes → Bytes → Bytes → HubSigner × HybridSig
  sign_claim ed_seed pq_seed d =
      let keys = keygen_derivable pq_seed in
      (
        record { classical_pk = ed_keygen ed_seed; pq_pk = keys.0 },
        record { classical = c.ed_sign ed_seed d; pq = c.pq_sign keys.1 d (replicate 32 0) },
      )
