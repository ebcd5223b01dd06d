-- ===== src/ProtoCap/HybridGate/Replay.antt =====
-- Histories of calls to `check` in bebop2/proto-cap/src/hybrid_gate.rs, and the replay ledger.
use open_bebop.Prelude.{
  ℕ, suc, ◌+◌, ◌/◌, ◌≤◌, ◌≡◌, refl, ap, inl, inr, Bool, true, false, ◌||◌, List, [], ◌∷◌, length,
  length-take, ltb, le→ltb, Result, ok, err, contains, insert, arith, if◌then◌else◌, is_ok, ◌≟◌,
  ≟-refl, ≟_of_ne, Distinct, Bool-cases,
}
use open_bebop.Prelude.Bytes.{Bytes, bytes_eq}
use open_bebop.Crypto.{Crypto}
use open_bebop.ProtoCap.Error.{CapError, nonce_rejected}
use open_bebop.ProtoCap.Roster.{AnchorRoster, Delegation}
use open_bebop.ProtoCap.Revocation.{RevocationSet}
use open_bebop.ProtoCap.SignedFrame.{SignedFrame}
use open_bebop.ProtoCap.HybridGate.{
  HybridGate, max_seen_nonces, prune, record_nonce, after_verify, check, verify_all,
}

-- One call of `check`.
pub record Request : Type 0 where
  pub frame : SignedFrame
  pub roster : AnchorRoster
  pub chain : List Delegation
  pub revocations : RevocationSet
  pub now : ℕ

||_true : (b : Bool) → (b || true) ≡ true
||_true b = ground arith

differs :
    (x n : Bytes) (seen : List Bytes)
    → contains seen x ≡ true
    → contains seen n ≡ false
    → (x ≟ n) ≡ false
differs x n seen old new = ≟_of_ne x n (λ e. cc (ap (contains seen) e))

contains_head : (x : Bytes) (xs : List Bytes) → contains (x ∷ xs) x ≡ true
unfolding contains
contains_head x xs = rw (≟-refl x)

module _ (c : Crypto) (iter : List Bytes → List Bytes) where
  unfoldable pub serve : HybridGate → Request → Result CapError (Unit {0}) × HybridGate
  serve gate r = check c iter gate r.frame r.roster r.chain r.revocations r.now

  -- The nonces accepted over a history, oldest first.
  unfoldable pub accepted : HybridGate → List Request → List Bytes
  unfolding serve
  accepted gate [] = []
  accepted gate (r ∷ rs) =
      let rest = accepted (serve gate r).1 rs in
      if is_ok (serve gate r).0 then r.frame.capability.nonce ∷ rest else rest

  prune_room : (xs : List Bytes) → length xs ≤ max_seen_nonces → prune iter xs ≡ xs
  unfolding prune
  prune_room xs h = rw (le→ltb max_seen_nonces (length xs) h)

  insert_new : (x : Bytes) (xs : List Bytes) → contains xs x ≡ false → insert x xs ≡ x ∷ xs
  unfolding insert
  insert_new x xs h = rw h

  record_nonce_new :
      (nonce : Bytes) (gate : HybridGate)
      → contains gate.seen nonce ≡ false
      → suc (length gate.seen) ≤ max_seen_nonces
      → record_nonce iter nonce gate ≡ (ok tt, record gate { seen = nonce ∷ gate.seen })
  unfolding record_nonce
  record_nonce_new nonce gate new room =
      rw new (rw (insert_new nonce gate.seen new) (rw (prune_room (nonce ∷ gate.seen) room)))

  record_nonce_old :
      (nonce : Bytes) (gate : HybridGate)
      → contains gate.seen nonce ≡ true
      → record_nonce iter nonce gate ≡ (err nonce_rejected, gate)
  unfolding record_nonce
  record_nonce_old nonce gate old = rw old

  -- What one call does to the ledger while there is room.
  data Outcome (gate : HybridGate) (nonce : Bytes) (out : Result CapError (Unit {0}) × HybridGate)
      : Type 0 where
    taken :
        contains gate.seen nonce ≡ false
        → out ≡ (ok tt, record gate { seen = nonce ∷ gate.seen })
        → Outcome gate nonce out
    refused : (e : CapError) → out ≡ (err e, gate) → Outcome gate nonce out

  serve_Outcome :
      (gate : HybridGate) (r : Request)
      → suc (length gate.seen) ≤ max_seen_nonces
      → Outcome gate r.frame.capability.nonce (serve gate r)
  unfolding serve check after_verify
  serve_Outcome gate r room = go (verify_all c gate r.frame r.roster r.chain r.revocations r.now)
    where
      nonce : Bytes
      nonce = r.frame.capability.nonce

      go : (v : Result CapError (Unit {0})) → Outcome gate nonce (after_verify iter nonce gate v)
      go (err e) = refused e refl
      go (ok u) = elim (Bool-cases (contains gate.seen nonce)) [
        | inl old ↦ refused nonce_rejected (record_nonce_old nonce gate old)
        | inr new ↦ taken new (record_nonce_new nonce gate new room)
      ]

  seen_not_accepted :
      (gate : HybridGate) (rs : List Request) (x : Bytes)
      → length gate.seen + length rs ≤ max_seen_nonces
      → contains gate.seen x ≡ true
      → contains (accepted gate rs) x ≡ false
  unfolding accepted contains
  seen_not_accepted gate [] x room old = refl
  seen_not_accepted gate (r ∷ rs) x room old = elim (serve_Outcome gate r (omega arith)) [
    | taken new e ↦
        let n = r.frame.capability.nonce in
        let later =
          seen_not_accepted (record gate { seen = n ∷ gate.seen }) rs x (omega arith)
            (rw old (||_true (x ≟ n))) in
        let apart : (x ≟ n) ≡ false = differs x n gate.seen old new in
        rw (e, accepted) (rw apart later)
    | refused k e ↦ rw (e, accepted) (seen_not_accepted gate rs x (omega arith) old)
  ]

  distinct :
      (gate : HybridGate) (rs : List Request)
      → length gate.seen + length rs ≤ max_seen_nonces
      → Distinct (accepted gate rs)
  unfolding accepted
  distinct gate [] room = tt
  distinct gate (r ∷ rs) room = elim (serve_Outcome gate r (omega arith)) [
    | taken new e ↦
        let n = r.frame.capability.nonce in
        let gate' = record gate { seen = n ∷ gate.seen } in
        rw (e, accepted)
          (
            seen_not_accepted gate' rs n (omega arith) (contains_head n gate.seen),
            distinct gate' rs (omega arith),
          )
    | refused k e ↦ rw (e, accepted) (distinct gate rs (omega arith))
  ]

  prune_bounded :
      (xs : List Bytes) → length xs ≤ suc max_seen_nonces → length (prune iter xs) ≤ max_seen_nonces
  unfolding prune
  prune_bounded xs h = elim (Bool-cases (ltb max_seen_nonces (length xs))) [
    | inl full ↦ rw full (omega (arith, length-take (max_seen_nonces / 2) (iter xs)))
    | inr room ↦ rw room (ground arith)
  ]

  record_nonce_bounded :
      (nonce : Bytes) (gate : HybridGate)
      → length gate.seen ≤ max_seen_nonces
      → length (record_nonce iter nonce gate).1.seen ≤ max_seen_nonces
  unfolding record_nonce
  record_nonce_bounded nonce gate h = elim (Bool-cases (contains gate.seen nonce)) [
    | inl old ↦ rw old h
    | inr new ↦
        rw new
          (rw (insert_new nonce gate.seen new) (prune_bounded (nonce ∷ gate.seen) (omega arith)))
  ]

  -- As long as the calls and the nonces already recorded do not exceed the ledger's bound, no
  -- nonce is accepted twice over a history of calls.
  pub accepted-Distinct :
      (gate : HybridGate) (rs : List Request)
      → length gate.seen + length rs ≤ max_seen_nonces
      → Distinct (accepted gate rs)
  accepted-Distinct gate rs room = distinct gate rs room

  -- Whatever the call, a ledger within its bound stays within it.
  pub serve_bounded :
      (gate : HybridGate) (r : Request)
      → length gate.seen ≤ max_seen_nonces
      → length (serve gate r).1.seen ≤ max_seen_nonces
  unfolding serve check after_verify
  serve_bounded gate r h = go (verify_all c gate r.frame r.roster r.chain r.revocations r.now)
    where
      nonce : Bytes
      nonce = r.frame.capability.nonce

      go :
          (v : Result CapError (Unit {0}))
          → length (after_verify iter nonce gate v).1.seen ≤ max_seen_nonces
      go (err e) = h
      go (ok u) = record_nonce_bounded nonce gate h
