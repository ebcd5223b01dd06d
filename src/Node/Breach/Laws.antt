-- ===== src/Node/Breach/Laws.antt =====
-- Which frames bebop2/mesh-node/src/breach.rs takes for an alarm.
use open_bebop.Prelude.{
  ℕ, ◌≡◌, refl, ap, ◌∙◌, ◌↔◌, Bool, true, ◌&&◌, &&_iff, Option, none, length, ◌==◌, ==_iff, is_ok,
  Result, ok, err, guard, guard-eq-ok, >>=-eq-ok,
}
use open_bebop.Prelude.Bytes.{Bytes}
use open_bebop.Crypto.{Crypto}
use open_bebop.ProtoCap.Scope
use open_bebop.ProtoCap.Capability.{new_hybrid}
use open_bebop.ProtoCap.SignedFrame.{
  SignedFrame, sign_classical, sign_pq, verify_classical, verify_pq, binding_signing_domain,
}
use open_bebop.ProtoCap.SignedFrame
use open_bebop.ProtoCap.SignedFrame.Laws.{
  verify_classical_iff, verify_pq_iff, swap_pq, binding_signing_domain-swap_pq,
  verify_classical-swap_pq,
}
use open_bebop.Node.Breach.{
  hybrid_gate, not_a_breach_frame, bad_payload_len, witness_id_mismatch, is_breach_grant, sign,
  verify, decodes,
}

is_ok-true : {E : Type 0} (r : Result E (Unit {0})) → is_ok r ≡ true → r ≡ ok tt
is_ok-true (ok u) h = refl
is_ok-true (err e) h = absurd (cc h)

module _ (c : Crypto) where
  -- The alarms: a breach broadcast, both legs good, a payload of 40 bytes that the kernel decodes.
  pub record IsAlarm (kernel : Option (Bytes → Bool)) (frame : SignedFrame) : Type 0 where
    pub grant : is_breach_grant frame.capability.scope.grants ≡ true
    pub classical : verify_classical c frame ≡ ok tt
    pub pq : verify_pq c frame ≡ ok tt
    pub width : length frame.payload ≡ 40
    pub decoded : decodes c kernel frame.payload ≡ true

  accepted :
      (kernel : Option (Bytes → Bool)) (frame : SignedFrame)
      → IsAlarm kernel frame
      → verify c kernel frame ≡ ok frame.payload
  unfolding verify
  accepted kernel frame a =
      rw (a.grant, a.classical, a.pq)
        (rw ((==_iff (length frame.payload) 40).1 a.width, a.decoded) refl)

  IsAlarm-of :
      (kernel : Option (Bytes → Bool)) (frame : SignedFrame) (alert : Bytes)
      → verify c kernel frame ≡ ok alert
      → IsAlarm kernel frame × (frame.payload ≡ alert)
  unfolding verify
  IsAlarm-of kernel frame alert h =
      let (u₁, e₁, h₁) =
        >>=-eq-ok (guard (is_breach_grant frame.capability.scope.grants) not_a_breach_frame) _ h in
      let (u₂, e₂, h₂) =
        >>=-eq-ok
          (guard (is_ok (verify_classical c frame) && is_ok (verify_pq c frame)) hybrid_gate) _
          h₁ in
      let (u₃, e₃, h₃) = >>=-eq-ok (guard (length frame.payload == 40) bad_payload_len) _ h₂ in
      let (u₄, e₄, h₄) =
        >>=-eq-ok (guard (decodes c kernel frame.payload) witness_id_mismatch) _ h₃ in
      let (l, p) =
        (&&_iff (is_ok (verify_classical c frame)) (is_ok (verify_pq c frame))).0
          (guard-eq-ok _ hybrid_gate e₂) in
      (
        record {
          grant = guard-eq-ok _ not_a_breach_frame e₁;
          classical = is_ok-true (verify_classical c frame) l;
          pq = is_ok-true (verify_pq c frame) p;
          width = (==_iff (length frame.payload) 40).0 (guard-eq-ok _ bad_payload_len e₃);
          decoded = guard-eq-ok _ witness_id_mismatch e₄;
        },
        cc h₄,
      )

  -- A frame is taken for an alarm exactly when it grants a breach broadcast and nothing else, both
  -- of its signatures hold, and its payload has 40 bytes that the kernel, where it is built in,
  -- decodes; what comes out is that payload.
  pub verify_iff :
      (kernel : Option (Bytes → Bool)) (frame : SignedFrame) (alert : Bytes)
      → (verify c kernel frame ≡ ok alert) ↔ (IsAlarm kernel frame × (frame.payload ≡ alert))
  verify_iff kernel frame alert =
      (IsAlarm-of kernel frame alert, λ h. accepted kernel frame h.0 ∙ ap ok h.1)

  -- What the code relies on of the two signature schemes, for one node's keys.
  pub record SignsFor (ed_keygen : Bytes → Bytes) (ed_seed pq_sk pq_pk rnd : Bytes) : Type 0 where
    pub width : (m : Bytes) → length (c.ed_sign ed_seed m) ≡ 64
    pub classical : (m : Bytes) → c.ed_verify (ed_keygen ed_seed) m (c.ed_sign ed_seed m) ≡ true
    pub pq : (m : Bytes) → c.pq_verify pq_pk m (c.pq_sign pq_sk m rnd) ≡ true

  -- An alarm of 40 bytes that a node signs is taken, and comes out as it went in.
  pub verify-sign :
      (ed_keygen : Bytes → Bytes) (alert ed_seed pq_sk pq_pk nonce : Bytes) (expiry : ℕ)
      (rnd : Bytes)
      → SignsFor ed_keygen ed_seed pq_sk pq_pk rnd
      → length alert ≡ 40
      → verify c none (sign c ed_keygen alert ed_seed pq_sk pq_pk nonce expiry rnd) ≡ ok alert
  unfolding sign new_hybrid Scope.single Scope.new SignedFrame.new sign_classical sign_pq
      is_breach_grant Scope.Resource-discrete Scope.Action-discrete binding_signing_domain
      SignedFrame.signing_domain
  verify-sign ed_keygen alert ed_seed pq_sk pq_pk nonce expiry rnd k width =
      let frame = sign c ed_keygen alert ed_seed pq_sk pq_pk nonce expiry rnd in
      let m = binding_signing_domain frame in
      accepted none frame (record {
        grant = refl;
        classical =
            (verify_classical_iff c frame).1 (c.ed_sign ed_seed m, refl, k.width m, k.classical m);
        pq = (verify_pq_iff c frame).1 (pq_pk, c.pq_sign pq_sk m rnd, refl, refl, k.pq m);
        width = width;
        decoded = refl;
      })

  -- An alarm stays one, with the same bytes, when another post-quantum key and a signature under it
  -- over the bytes that the frame signed are put in.
  pub verify-swap_pq :
      (kernel : Option (Bytes → Bool)) (frame : SignedFrame) (alert pk sig : Bytes)
      → verify c kernel frame ≡ ok alert
      → c.pq_verify pk (binding_signing_domain frame) sig ≡ true
      → verify c kernel (swap_pq pk sig frame) ≡ ok alert
  verify-swap_pq kernel frame alert pk sig h good =
      let (a, e) = IsAlarm-of kernel frame alert h in
      accepted kernel (swap_pq pk sig frame) (record {
        grant = a.grant;
        classical = verify_classical-swap_pq c pk sig frame ∙ a.classical;
        pq =
            (verify_pq_iff c (swap_pq pk sig frame)).1
              (pk, sig, refl, refl, rw (binding_signing_domain-swap_pq pk sig frame) good);
        width = a.width;
        decoded = a.decoded;
      })
      ∙ ap ok e
