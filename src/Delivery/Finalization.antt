-- ===== src/Delivery/Finalization.antt =====
-- bebop2/delivery-domain/src/finalization.rs: hub finalizations and the rule that merges a
-- partition. `h` is `sha3_256`.
pub mod Conflict
pub mod Laws
use open_bebop.Prelude.{
  ℕ, zero, ◌+◌, Bool, true, false, not, ◌&&◌, ◌||◌, Option, none, some, List, [], ◌∷◌, ◌++◌, ◌==◌,
  ◌≟◌, if◌then◌else◌, replicate, get_or, Result, ok, err,
}
use open_bebop.Prelude.Bytes.{Bytes, le_bytes, bytes_eq}

pub record Finalization : Type 0 where
  pub order_id : ℕ
  pub status : ℕ
  pub hub : Bytes
  pub quorum_seq : ℕ
  pub prev_hash : Bytes
  pub hash : Bytes

-- The bytes that the link's hash binds.
unfoldable pub link_bytes : ℕ → ℕ → Bytes → ℕ → Bytes → Bytes
link_bytes order_id status hub quorum_seq prev_hash =
    le_bytes 8 order_id ++ (status ∷ (hub ++ (le_bytes 8 quorum_seq ++ prev_hash)))

abbrev pub is_terminal : ℕ → Bool
is_terminal status = status == 0x15 || (status == 0x16 || (status == 0x17 || status == 0x18))

-- Two terminal statuses that differ.
unfoldable pub split : Finalization → Finalization → Bool
split a b = not (a.status == b.status) && (is_terminal a.status && is_terminal b.status)

-- The inner loop, at index `j`, for the record `a` of index `i`.
unfoldable pub conflict_with : ℕ → Finalization → ℕ → List Finalization → Option (ℕ × ℕ)
conflict_with i a j [] = none
conflict_with i a j (b ∷ bs) =
    let rest = conflict_with i a (j + 1) bs in
    if i == j || not (a.order_id == b.order_id)
    then rest
    else if split a b
    then some (i, j)
    else rest

abbrev pub or_later : Option (ℕ × ℕ) → Option (ℕ × ℕ) → Option (ℕ × ℕ)
or_later none later = later
or_later (some pair) later = some pair

-- The outer loop, at index `i`, over the records of the order of the first.
unfoldable pub conflict_from : ℕ → List Finalization → ℕ → List Finalization → Option (ℕ × ℕ)
conflict_from order all i [] = none
conflict_from order all i (a ∷ rest) =
    let later = conflict_from order all (i + 1) rest in
    if not (a.order_id == order) then later else or_later (conflict_with i a 0 all) later

unfoldable pub detect_conflict : List Finalization → Option (ℕ × ℕ)
detect_conflict [] = none
detect_conflict (f ∷ fs) = conflict_from f.order_id (f ∷ fs) 0 (f ∷ fs)

module _ (h : Bytes → Bytes) where
  unfoldable pub new : ℕ → ℕ → Bytes → ℕ → Bytes → Finalization
  new order_id status hub quorum_seq prev_hash = record {
    order_id = order_id;
    status = status;
    hub = hub;
    quorum_seq = quorum_seq;
    prev_hash = prev_hash;
    hash = h (link_bytes order_id status hub quorum_seq prev_hash);
  }

  unfoldable pub verify_chain : Bytes → Finalization → Bool
  verify_chain expected_prev f =
      (h (link_bytes f.order_id f.status f.hub f.quorum_seq f.prev_hash) ≟ f.hash)
      && (f.prev_hash ≟ expected_prev)

  -- The loop over the links: the first that is not bound is the error, twice.
  unfoldable pub check_links : List Finalization → Result (Finalization × Finalization) (Unit {0})
  check_links [] = ok tt
  check_links (f ∷ fs) =
      let rest = check_links fs in if verify_chain f.prev_hash f then rest else err (f, f)

  -- `Finalization::new(0, 0, [0; 32], 0, [0; 32])`
  unfoldable pub blank : Finalization
  blank = new 0 0 (replicate 32 0) 0 (replicate 32 0)

  unfoldable pub decide :
      List Finalization → Option (ℕ × ℕ) → Result (Finalization × Finalization) ℕ
  decide fs (some (i, j)) = err (get_or fs i blank, get_or fs j blank)
  decide [] none = err (blank, blank)
  decide (f ∷ fs) none = ok f.status

  abbrev pub if_bound :
      Result (Finalization × Finalization) (Unit {0})
      → Result (Finalization × Finalization) ℕ
      → Result (Finalization × Finalization) ℕ
  if_bound (ok u) next = next
  if_bound (err e) next = err e

  unfoldable pub reconcile : List Finalization → Result (Finalization × Finalization) ℕ
  reconcile fs = if_bound (check_links fs) (decide fs (detect_conflict fs))
