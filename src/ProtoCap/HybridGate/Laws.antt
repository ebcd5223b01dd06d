-- ===== src/ProtoCap/HybridGate/Laws.antt =====
-- The conditions of `HybridGate::check` in bebop2/proto-cap/src/hybrid_gate.rs, one by one.
use open_bebop.Prelude.{
  ℕ, ◌<◌, ◌≡◌, refl, ◌↔◌, ◌⊎◌, inl, inr, Bool, true, false, not, ◌||◌, Option, none, some, List,
  Result, ok, err, guard, ◌>>◌, >>-eq-ok_iff, guard-eq-ok_iff, contains, ltb→lt, lt→ltb, arith,
  Elem, Result-cases,
}
use open_bebop.Prelude.Bytes.{Bytes, bytes_eq}
use open_bebop.Crypto.{Crypto}
use open_bebop.ProtoCap.Error.{CapError, expired, revoked}
use open_bebop.ProtoCap.Scope.{Grant}
use open_bebop.ProtoCap.Capability.{Capability, is_fresh}
use open_bebop.ProtoCap.Roster.{AnchorRoster, Delegation, verify_chain}
use open_bebop.ProtoCap.Redline.{RedLinePolicy, RedLineCategory, is_red_line}
use open_bebop.ProtoCap.Redline
use open_bebop.ProtoCap.Redline.Laws.{IsAllowed}
use open_bebop.ProtoCap.Revocation.{
  RevocationSet, is_revoked_key, is_revoked_capability, revocation_hash, pq_key_id,
}
use open_bebop.ProtoCap.SignedFrame.{SignedFrame, verify_classical, verify_pq}
use open_bebop.ProtoCap.HybridGate.{
  HybridPolicy, require_both, classical_until_pq_audit, HybridGate, check_redline, check_pq_revoked,
  check_pq, verify_all, record_nonce, after_verify, check,
}

-- The classical leg is always there; the post-quantum one where the policy or the frame asks.
abbrev pub WantsPq : HybridPolicy → Option Bytes → Type 0
WantsPq require_both sig = Unit {0}
WantsPq classical_until_pq_audit none = ⊥
WantsPq classical_until_pq_audit (some sig) = Unit {0}

-- Where a red-line policy is armed, it lets the scope of the capability through.
abbrev pub PassesRedline : Option RedLinePolicy → Capability → Type 0
PassesRedline none request = Unit {0}
PassesRedline (some policy) request =
    (g : Grant) (k : RedLineCategory)
    → Elem g request.scope.grants
    → is_red_line g.0 g.1 ≡ some k
    → IsAllowed policy g

-- A post-quantum key, if there is one, is not revoked.
abbrev pub PqNotRevoked : Crypto → RevocationSet → Option Bytes → Type 0
PqNotRevoked c revocations none = Unit {0}
PqNotRevoked c revocations (some pq) = is_revoked_key revocations (pq_key_id c pq) ≡ false

module _ (c : Crypto) (gate : HybridGate) (frame : SignedFrame) (roster : AnchorRoster)
    (chain : List Delegation) (revocations : RevocationSet) (now : ℕ) where
  pub record IsVerified : Type 0 where
    pub fresh : now < frame.capability.expiry
    pub authorized : verify_chain c roster chain frame.capability now ≡ ok tt
    pub redline : PassesRedline gate.redline frame.capability
    pub key_good : is_revoked_key revocations frame.capability.subject_key ≡ false
    pub capability_good :
        is_revoked_capability revocations (revocation_hash c frame.capability) ≡ false
    pub pq_good : PqNotRevoked c revocations frame.capability.subject_key_pq
    pub classical : verify_classical c frame ≡ ok tt
    pub pq : WantsPq gate.policy frame.pq_sig → verify_pq c frame ≡ ok tt

check_redline_iff :
    (policy : Option RedLinePolicy) (request : Capability)
    → (check_redline policy request ≡ ok tt) ↔ PassesRedline policy request
unfolding check_redline
check_redline_iff none request = (λ h. tt, λ h. refl)
check_redline_iff (some policy) request = (to, from)
  where
    open_result :
        (r : Result RedLineCategory (Unit {0}))
        → check_redline (some policy) request ≡ ok tt
        → Redline.check request.scope policy ≡ r
        → Redline.check request.scope policy ≡ ok tt
    open_result (ok u) h e = e
    open_result (err k) h e = cc (rw (e, check_redline) at h)

    to : check_redline (some policy) request ≡ ok tt → PassesRedline (some policy) request
    to h = (Redline.Laws.check_iff request.scope policy).0 (open_result _ h refl)

    from : PassesRedline (some policy) request → check_redline (some policy) request ≡ ok tt
    from h = rw ((Redline.Laws.check_iff request.scope policy).1 h, check_redline)

check_pq_revoked_iff :
    (c : Crypto) (revocations : RevocationSet) (pq : Option Bytes)
    → (check_pq_revoked c revocations pq ≡ ok tt) ↔ PqNotRevoked c revocations pq
unfolding check_pq_revoked
check_pq_revoked_iff c revocations none = (λ h. tt, λ h. refl)
check_pq_revoked_iff c revocations (some pq) = (λ h. ground arith, λ h. ground arith)

check_pq_iff :
    (c : Crypto) (policy : HybridPolicy) (frame : SignedFrame)
    → (check_pq c policy frame ≡ ok tt) ↔ (WantsPq policy frame.pq_sig → verify_pq c frame ≡ ok tt)
unfolding check_pq
check_pq_iff c policy frame = go policy frame.pq_sig refl
  where
    go :
        (p : HybridPolicy) (sig : Option Bytes)
        → frame.pq_sig ≡ sig
        → (check_pq c p frame ≡ ok tt) ↔ (WantsPq p sig → verify_pq c frame ≡ ok tt)
    go require_both sig e = (λ h w. h, λ h. h tt)
    go classical_until_pq_audit none e = (λ h w. absurd w, λ h. rw (e, check_pq) refl)
    go classical_until_pq_audit (some sig) e =
        (λ h w. rw (e, check_pq) at h, λ h. rw (e, check_pq) (h tt))

seven_checks :
    {E : Type 0} (a b d e f g h : Result E (Unit {0}))
    → ((a >> (b >> (d >> (e >> (f >> (g >> h)))))) ≡ ok tt) ↔ (
        (a ≡ ok tt)
        × (b ≡ ok tt)
        × (d ≡ ok tt)
        × (e ≡ ok tt)
        × (f ≡ ok tt)
        × (g ≡ ok tt)
        × (h ≡ ok tt))
seven_checks a b d e f g h = (to, from)
  where
    to :
        (a >> (b >> (d >> (e >> (f >> (g >> h)))))) ≡ ok tt
        → (a ≡ ok tt)
          × (b ≡ ok tt)
          × (d ≡ ok tt)
          × (e ≡ ok tt)
          × (f ≡ ok tt)
          × (g ≡ ok tt)
          × (h ≡ ok tt)
    to p₀ =
        let (pa, p₁) = (>>-eq-ok_iff a (b >> (d >> (e >> (f >> (g >> h))))) tt).0 p₀ in
        let (pb, p₂) = (>>-eq-ok_iff b (d >> (e >> (f >> (g >> h)))) tt).0 p₁ in
        let (pd, p₃) = (>>-eq-ok_iff d (e >> (f >> (g >> h))) tt).0 p₂ in
        let (pe, p₄) = (>>-eq-ok_iff e (f >> (g >> h)) tt).0 p₃ in
        let (pf, p₅) = (>>-eq-ok_iff f (g >> h) tt).0 p₄ in
        let (pg, ph) = (>>-eq-ok_iff g h tt).0 p₅ in (pa, pb, pd, pe, pf, pg, ph)

    from :
        (a ≡ ok tt)
          × (b ≡ ok tt)
          × (d ≡ ok tt)
          × (e ≡ ok tt)
          × (f ≡ ok tt)
          × (g ≡ ok tt)
          × (h ≡ ok tt)
        → (a >> (b >> (d >> (e >> (f >> (g >> h)))))) ≡ ok tt
    from (pa, pb, pd, pe, pf, pg, ph) = rw (pa, pb, pd, pe, pf, pg, ph)

not_revoked : (key hash : Bool) → (not (key || hash) ≡ true) ↔ ((key ≡ false) × (hash ≡ false))
not_revoked key hash = (λ h. ground arith, λ h. ground arith)

module _ (c : Crypto) (gate : HybridGate) (frame : SignedFrame) (roster : AnchorRoster)
    (chain : List Delegation) (revocations : RevocationSet) (now : ℕ) where
  verify_all_iff :
      (verify_all c gate frame roster chain revocations now ≡ ok tt)
      ↔ IsVerified c gate frame roster chain revocations now
  unfolding verify_all is_fresh
  verify_all_iff = (to, from)
    where
      request : Capability
      request = frame.capability

      key_revoked : Bool
      key_revoked = is_revoked_key revocations request.subject_key

      hash_revoked : Bool
      hash_revoked = is_revoked_capability revocations (revocation_hash c request)

      steps : (verify_all c gate frame roster chain revocations now ≡ ok tt) ↔ (
          (guard (is_fresh request now) expired ≡ ok tt)
          × (verify_chain c roster chain request now ≡ ok tt)
          × (check_redline gate.redline request ≡ ok tt)
          × (guard (not (key_revoked || hash_revoked)) revoked ≡ ok tt)
          × (check_pq_revoked c revocations request.subject_key_pq ≡ ok tt)
          × (verify_classical c frame ≡ ok tt)
          × (check_pq c gate.policy frame ≡ ok tt))
      steps =
          seven_checks (guard (is_fresh request now) expired)
            (verify_chain c roster chain request now) (check_redline gate.redline request)
            (guard (not (key_revoked || hash_revoked)) revoked)
            (check_pq_revoked c revocations request.subject_key_pq) (verify_classical c frame)
            (check_pq c gate.policy frame)

      to :
          verify_all c gate frame roster chain revocations now ≡ ok tt
          → IsVerified c gate frame roster chain revocations now
      to h =
          let s = steps.0 h in
          let good = (not_revoked key_revoked hash_revoked).0 ((guard-eq-ok_iff _ revoked).0 s.3) in
          record {
            fresh = ltb→lt now request.expiry ((guard-eq-ok_iff _ expired).0 s.0);
            authorized = s.1;
            redline = (check_redline_iff gate.redline request).0 s.2;
            key_good = good.0;
            capability_good = good.1;
            pq_good = (check_pq_revoked_iff c revocations request.subject_key_pq).0 s.4;
            classical = s.5;
            pq = (check_pq_iff c gate.policy frame).0 s.6;
          }

      from :
          IsVerified c gate frame roster chain revocations now
          → verify_all c gate frame roster chain revocations now ≡ ok tt
      from v = steps.1 (
        (guard-eq-ok_iff _ expired).1 (lt→ltb now request.expiry v.fresh),
        v.authorized,
        (check_redline_iff gate.redline request).1 v.redline,
        (guard-eq-ok_iff _ revoked).1
            ((not_revoked key_revoked hash_revoked).1 (v.key_good, v.capability_good)),
        (check_pq_revoked_iff c revocations request.subject_key_pq).1 v.pq_good,
        v.classical,
        (check_pq_iff c gate.policy frame).1 v.pq,
      )

  record_nonce_iff :
      (iter : List Bytes → List Bytes) (nonce : Bytes)
      → ((record_nonce iter nonce gate).0 ≡ ok tt) ↔ (contains gate.seen nonce ≡ false)
  unfolding record_nonce
  record_nonce_iff iter nonce = (λ h. ground arith, λ h. ground arith)

  -- The gate accepts a frame exactly when it is verified (fresh, authorized by an anchor-rooted
  -- chain, clear of the red lines and of revocations, signed on both legs where the policy asks)
  -- and its nonce is not in the ledger.
  pub gate-check_iff :
      (iter : List Bytes → List Bytes)
      → ((check c iter gate frame roster chain revocations now).0 ≡ ok tt) ↔ (
          IsVerified c gate frame roster chain revocations now
          × (contains gate.seen frame.capability.nonce ≡ false))
  unfolding check after_verify
  gate-check_iff iter = (to (Result-cases verified), from)
    where
      verified : Result CapError (Unit {0})
      verified = verify_all c gate frame roster chain revocations now

      to :
          ((u : Unit {0}) × (verified ≡ ok u)) ⊎ ((e : CapError) × (verified ≡ err e))
          → (after_verify iter frame.capability.nonce gate verified).0 ≡ ok tt
          → IsVerified c gate frame roster chain revocations now
            × (contains gate.seen frame.capability.nonce ≡ false)
      to (inl (u, e)) h =
          (verify_all_iff.0 e, (record_nonce_iff iter _).0 (rw (e, after_verify) at h))
      to (inr (x, e)) h = cc (rw (e, after_verify) at h)

      from :
          IsVerified c gate frame roster chain revocations now
            × (contains gate.seen frame.capability.nonce ≡ false)
          → (after_verify iter frame.capability.nonce gate verified).0 ≡ ok tt
      from (v, unseen) = rw (verify_all_iff.1 v, after_verify) ((record_nonce_iff iter _).1 unseen)

  -- A refused frame, for whatever reason, leaves the gate and its ledger as they were: it does
  -- not consume its nonce.
  pub check_error_keeps :
      (iter : List Bytes → List Bytes) (x : CapError)
      → (check c iter gate frame roster chain revocations now).0 ≡ err x
      → (check c iter gate frame roster chain revocations now).1 ≡ gate
  unfolding check
  check_error_keeps iter x h = keeps (verify_all c gate frame roster chain revocations now) h
    where
      keeps :
          (r : Result CapError (Unit {0}))
          → (after_verify iter frame.capability.nonce gate r).0 ≡ err x
          → (after_verify iter frame.capability.nonce gate r).1 ≡ gate
      keeps (ok u) h = ground arith
      keeps (err e) h = refl
