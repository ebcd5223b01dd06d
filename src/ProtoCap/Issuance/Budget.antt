-- ===== src/ProtoCap/Issuance/Budget.antt =====
-- How many delegations the budget of bebop2/proto-cap/src/node_id.rs lets an anchor sign.
use open_bebop.Prelude.{
  ℕ, ◌+◌, ◌^◌, ◌-◌, ◌≤◌, ◌<◌, min, ◌≡◌, refl, ap, sym, subst, inl, inr, true, not, List, [], ◌∷◌,
  ltb, ltb→lt, ltb_false→le, leb, ◌==◌, ◌≟◌, if◌then◌else◌, Result, ok, err, guard, guard-eq-ok,
  >>=-eq-ok, Bool-cases, Result-cases, arith,
}
use open_bebop.Prelude.Bytes.{Bytes, bytes_eq}
use open_bebop.Crypto.{Crypto}
use open_bebop.ProtoCap.Roster.{AnchorRoster, Delegation, in_roster}
use open_bebop.ProtoCap.Revocation.{RevocationSet, is_revoked_key}
use open_bebop.ProtoCap.Issuance.{
  RootDelegationPolicy, IssuanceBudget, IssuanceError, anchor_not_enrolled, anchor_revoked,
  anchor_mismatch, epoch_regression, budget_exhausted, issuance_epoch, can_issue, charge_issuance,
  policy_gate, Terms, sign_delegation_budgeted,
}

-- A call of the seam, without the budget, which the caller hands on from call to call.
pub record Call : Type 0 where
  pub policy : RootDelegationPolicy
  pub roster : AnchorRoster
  pub revoked : RevocationSet
  pub issued_by : Bytes
  pub terms : Terms
  pub seed : Bytes
  pub now_tick : ℕ

module _ (c : Crypto) (epoch_len : ℕ) where
  abbrev pub attempt : IssuanceBudget → Call → Result IssuanceError (Delegation × IssuanceBudget)
  attempt b k =
      sign_delegation_budgeted c k.policy k.roster k.revoked b k.issued_by k.terms k.seed k.now_tick
        epoch_len

  abbrev pub kept :
      IssuanceBudget → Result IssuanceError (Delegation × IssuanceBudget) → IssuanceBudget
  kept b (ok (d, after)) = after
  kept b (err e) = b

  abbrev pub counted : ℕ → ℕ → Result IssuanceError (Delegation × IssuanceBudget) → ℕ
  counted e now (ok signed) = if e == now then 1 else 0
  counted e now (err why) = 0

  -- How many of the calls sign a delegation in epoch `e`.
  unfoldable pub signed_in : ℕ → IssuanceBudget → List Call → ℕ
  signed_in e b [] = 0
  signed_in e b (k ∷ ks) =
      counted e (issuance_epoch k.now_tick epoch_len) (attempt b k)
      + signed_in e (kept b (attempt b k)) ks

  -- A call that signs has passed the budget, and hands on the charged one.
  attempt-eq-ok :
      (b : IssuanceBudget) (k : Call) (d : Delegation) (after : IssuanceBudget)
      → attempt b k ≡ ok (d, after)
      → (b.epoch ≤ issuance_epoch k.now_tick epoch_len)
        × (b.minted_count < b.max_per_epoch)
        × (after ≡ charge_issuance b k.now_tick epoch_len)
  unfolding sign_delegation_budgeted can_issue
  attempt-eq-ok b k d after h =
      let (u₁, e₁, h₁) = >>=-eq-ok (policy_gate k.policy) _ h in
      let (u₂, e₂, h₂) =
        >>=-eq-ok (guard (in_roster k.roster k.issued_by) anchor_not_enrolled) _ h₁ in
      let (u₃, e₃, h₃) =
        >>=-eq-ok (guard (not (is_revoked_key k.revoked k.issued_by)) anchor_revoked) _ h₂ in
      let (u₄, e₄, h₄) = >>=-eq-ok (can_issue b k.issued_by k.now_tick epoch_len) _ h₃ in
      let (v₁, f₁, g₁) =
        >>=-eq-ok (guard (not (ltb (issuance_epoch k.now_tick epoch_len) b.epoch)) epoch_regression)
          _ e₄ in
      let (v₂, f₂, g₂) = >>=-eq-ok (guard (b.anchor_id ≟ k.issued_by) anchor_mismatch) _ g₁ in
      (
        not_below _ _ (guard-eq-ok _ epoch_regression f₁),
        below _ _ (guard-eq-ok _ budget_exhausted g₂),
        sym (ap (kept b) h₄),
      )
    where
      not_below : (a n : ℕ) → not (ltb a n) ≡ true → n ≤ a
      not_below a n t = ground arith

      below : (a n : ℕ) → not (leb a n) ≡ true → n < a
      below a n t = ground arith

  -- What is left of epoch `e` for a budget: nothing of a past one, all of a later one.
  abbrev pub room : ℕ → IssuanceBudget → ℕ
  room e b =
      if ltb e b.epoch
      then 0
      else (if e == b.epoch then b.max_per_epoch - b.minted_count else b.max_per_epoch)

  pub record IsWithin (b : IssuanceBudget) : Type 0 where
    pub minted : b.minted_count ≤ b.max_per_epoch
    pub cap : b.max_per_epoch < 2 ^ 32

  charge-IsWithin :
      (b : IssuanceBudget) (now : ℕ)
      → b.minted_count < b.max_per_epoch
      → IsWithin b
      → IsWithin (charge_issuance b now epoch_len)
  unfolding charge_issuance
  charge-IsWithin b now h w = elim (Bool-cases (ltb b.epoch (issuance_epoch now epoch_len))) [
    | inl t ↦ rw t (record { minted = omega (arith, h); cap = w.cap })
    | inr f ↦ rw f (record { minted = omega (arith, h); cap = w.cap })
  ]

  -- A charge takes one from the room of its epoch, and gives none back.
  charge_room :
      (e : ℕ) (b : IssuanceBudget) (now : ℕ)
      → IsWithin b
      → b.minted_count < b.max_per_epoch
      → b.epoch ≤ issuance_epoch now epoch_len
      → (if e == issuance_epoch now epoch_len then 1 else 0)
          + room e (charge_issuance b now epoch_len)
        ≤ room e b
  unfolding charge_issuance
  charge_room e b now w h le = elim (Bool-cases (ltb b.epoch (issuance_epoch now epoch_len))) [
    | inl t ↦ rw t (
        newer e b.epoch (issuance_epoch now epoch_len) b.minted_count b.max_per_epoch h
          (ltb→lt _ _ t))
    | inr f ↦ rw f (
        same e b.epoch (issuance_epoch now epoch_len) b.minted_count b.max_per_epoch h w.cap
          (omega (arith, le, ltb_false→le b.epoch (issuance_epoch now epoch_len) f)))
  ]
    where
      newer :
          (e old now minted cap : ℕ)
          → minted < cap
          → old < now
          → (if e == now then 1 else 0)
              + (if ltb e now then 0 else (if e == now then cap - 1 else cap))
            ≤ (if ltb e old then 0 else (if e == old then cap - minted else cap))
      newer e old now minted cap h lt = ground arith

      same :
          (e old now minted cap : ℕ)
          → minted < cap
          → cap < 2 ^ 32
          → old ≡ now
          → (if e == now then 1 else 0)
              + (if ltb e old
                  then 0
                  else (if e == old then cap - min (minted + 1) (2 ^ 32 - 1) else cap))
            ≤ (if ltb e old then 0 else (if e == old then cap - minted else cap))
      same e old now minted cap h small eq = ground arith

  -- Whatever calls are made with a budget that is handed on from call to call, those that sign in
  -- one epoch are no more than what is left of that epoch; so never more than the cap.
  pub signed_in-le :
      (e : ℕ) (b : IssuanceBudget) (calls : List Call) → IsWithin b → signed_in e b calls ≤ room e b
  unfolding signed_in
  signed_in-le e b [] w = omega arith
  signed_in-le e b (k ∷ ks) w = elim (Result-cases (attempt b k)) [
    | inr (why, failed) ↦ rw (signed_in, failed) (omega (arith, signed_in-le e b ks w))
    | inl ((d, after), done) ↦
        let (le, h, charged) = attempt-eq-ok b k d after done in
        let rest =
          signed_in-le e after ks
            (subst IsWithin (sym charged) (charge-IsWithin b k.now_tick h w)) in
        let left =
          subst
            (λ (a : IssuanceBudget).
              (if e == issuance_epoch k.now_tick epoch_len then 1 else 0) + room e a ≤ room e b)
            (sym charged) (charge_room e b k.now_tick w h le) in
        rw (signed_in, done) (le_add_trans _ _ _ _ rest left)
  ]
    where
      le_add_trans : (x y z t : ℕ) → y ≤ z → x + z ≤ t → x + y ≤ t
      le_add_trans x y z t h k = omega arith

  -- A budget that has reached its cap signs nothing any more, at whatever ticks it is tried: a new
  -- epoch does not restore it.
  pub signed_in-exhausted :
      (e : ℕ) (b : IssuanceBudget) (calls : List Call)
      → b.max_per_epoch ≤ b.minted_count
      → signed_in e b calls ≡ 0
  unfolding signed_in
  signed_in-exhausted e b [] h = refl
  signed_in-exhausted e b (k ∷ ks) h = elim (Result-cases (attempt b k)) [
    | inr (why, failed) ↦ rw (signed_in, failed) (omega (arith, signed_in-exhausted e b ks h))
    | inl ((d, after), done) ↦ absurd (omega (arith, (attempt-eq-ok b k d after done).1, h))
  ]
