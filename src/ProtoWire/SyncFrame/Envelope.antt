-- ===== src/ProtoWire/SyncFrame/Envelope.antt =====
-- Signing, carrying and checking a frame of bebop2/proto-wire/src/sync_pull.rs.
use open_bebop.Prelude.{
  ℕ, ◌≤◌, ◌≡◌, refl, sym, ◌∙◌, true, some, length, ◌==◌, ==_iff, ◌≟◌, ≟-refl, eq_of_≟, ne_of_≟, ok,
  guard, guard-eq-ok, >>=-eq-ok, All, append-injective, ◌⊎◌, inl, inr, Bool-cases,
}
use open_bebop.Prelude.Bytes.{
  Bytes, IsByte, IsU64, IsArray, le_bytes, length-le_bytes, le_bytes-injective, bytes_eq,
}
use open_bebop.Crypto.{Crypto, Collision}
use open_bebop.ProtoCap.SignedFrame.{
  SignedFrame, sign_classical, verify_classical, binding_signing_domain,
}
use open_bebop.ProtoCap.SignedFrame
use open_bebop.ProtoCap.Capability
use open_bebop.ProtoWire.SyncFrame.{
  SyncFrame, wrong_scope, content_id_mismatch, pull_scope, scope_beq, body_bytes, signing_domain,
  to_wire_bytes, from_wire_bytes, compute_content_id, sign, verify, carrier, into_signed_frame,
  from_signed_frame,
}
use open_bebop.ProtoWire.SyncFrame.Image.{IsWire, from_wire_bytes-to_wire_bytes}

module _ (c : Crypto) where
  -- What the code relies on of Ed25519: a signature has 64 bytes, and the key checks it.
  pub record IsKeyPair (seed key : Bytes) : Type 0 where
    pub width : (m : Bytes) → IsArray 64 (c.ed_sign seed m)
    pub checks : (m : Bytes) → c.ed_verify key m (c.ed_sign seed m) ≡ true

  accepted :
      (f : SyncFrame) (s : Bytes)
      → scope_beq f.scope pull_scope ≡ true
      → (compute_content_id c f ≟ f.content_id) ≡ true
      → f.sig ≡ some s
      → (length s == 64) ≡ true
      → c.ed_verify f.actor (signing_domain f) s ≡ true
      → verify c f ≡ ok tt
  unfolding verify
  accepted f s e₁ e₂ e₃ e₄ e₅ = rw (e₁, e₂) (simp (e₃, e₄, e₅))

  unwrapped :
      (fr : SignedFrame) (f : SyncFrame)
      → verify_classical c fr ≡ ok tt
      → from_wire_bytes fr.payload ≡ ok f
      → verify c f ≡ ok tt
      → from_signed_frame c fr ≡ ok f
  unfolding from_signed_frame
  unwrapped fr f e₁ e₂ e₃ = rw (e₁, e₂) (rw e₃ refl)

  signed_checks :
      (seed : Bytes) (fr : SignedFrame)
      → IsKeyPair seed fr.capability.subject_key
      → verify_classical c (sign_classical c seed fr) ≡ ok tt
  unfolding sign_classical verify_classical binding_signing_domain SignedFrame.signing_domain
  signed_checks seed fr k =
      let m = binding_signing_domain fr in
      rw ((==_iff (length (c.ed_sign seed m)) 64).1 (k.width m).0)
        (rw (signed_domain, k.checks m) refl)
    where
      signed_domain : binding_signing_domain (sign_classical c seed fr) ≡ binding_signing_domain fr
      signed_domain = refl

  carried :
      (seed : Bytes) (f : SyncFrame)
      → IsKeyPair seed f.actor
      → IsWire f
      → verify c f ≡ ok tt
      → from_signed_frame c (into_signed_frame c seed f) ≡ ok f
  unfolding into_signed_frame carrier Capability.new SignedFrame.new
  carried seed f k w v =
      unwrapped (into_signed_frame c seed f) f
        (signed_checks seed (SignedFrame.new (carrier c f) (to_wire_bytes f)) k)
        (unfold sign_classical in from_wire_bytes-to_wire_bytes f w) v

  -- A body of the widths of the Rust types, with a payload within the bound.
  pub record IsBody (prev actor : Bytes) (seq : ℕ) (payload : Bytes) : Type 0 where
    pub prev_width : IsArray 32 prev
    pub actor_width : IsArray 32 actor
    pub seq_fits : IsU64 seq
    pub payload_bytes : All IsByte payload
    pub payload_size : length payload ≤ 1048576

  module _ (prev actor : Bytes) (seq : ℕ) (payload seed : Bytes) (k : IsKeyPair seed actor) where
    sign-IsWire :
        ((m : Bytes) → IsArray 32 (c.sha3 m))
        → IsBody prev actor seq payload
        → IsWire (sign c pull_scope prev actor seq payload seed)
    unfolding sign compute_content_id
    sign-IsWire digest b = record {
      scope = refl;
      content_id = digest _;
      prev = b.prev_width;
      actor = b.actor_width;
      seq = b.seq_fits;
      payload = b.payload_bytes;
      payload_size = b.payload_size;
      sig = k.width _;
    }

    verify-sign : verify c (sign c pull_scope prev actor seq payload seed) ≡ ok tt
    unfolding sign compute_content_id body_bytes signing_domain scope_beq
    verify-sign =
        let f = sign c pull_scope prev actor seq payload seed in
        let m = signing_domain f in
        accepted f (c.ed_sign seed m) refl (≟-refl f.content_id) refl
          ((==_iff (length (c.ed_sign seed m)) 64).1 (k.width m).0) (k.checks m)

    author : IsKeyPair seed (sign c pull_scope prev actor seq payload seed).actor
    unfolding sign
    author = k

    -- Signing a body with the pull scope, carrying it in a signed frame and unwrapping that at the
    -- other side gives the frame back, for an author whose key pair is sound and a body of the
    -- widths of the Rust types with a payload within the bound.
    pub from_signed_frame-sign :
        ((m : Bytes) → IsArray 32 (c.sha3 m))
        → IsBody prev actor seq payload
        → from_signed_frame c
            (into_signed_frame c seed (sign c pull_scope prev actor seq payload seed))
          ≡ ok (sign c pull_scope prev actor seq payload seed)
    from_signed_frame-sign digest b =
        carried seed (sign c pull_scope prev actor seq payload seed) author (sign-IsWire digest b)
          verify-sign

  content_id_of : (f : SyncFrame) → verify c f ≡ ok tt → compute_content_id c f ≡ f.content_id
  unfolding verify
  content_id_of f h =
      let (u₁, e₁, h₁) = >>=-eq-ok (guard (scope_beq f.scope pull_scope) wrong_scope) _ h in
      let (u₂, e₂, h₂) =
        >>=-eq-ok (guard (compute_content_id c f ≟ f.content_id) content_id_mismatch) _ h₁ in
      eq_of_≟ (compute_content_id c f) f.content_id (guard-eq-ok _ content_id_mismatch e₂)

  -- Two frames that are accepted under one content-id have the same body, or they show a collision
  -- of the hash.
  pub verify-pins :
      (f g : SyncFrame)
      → IsWire f
      → IsWire g
      → verify c f ≡ ok tt
      → verify c g ≡ ok tt
      → f.content_id ≡ g.content_id
      → ((f.prev ≡ g.prev) × (f.actor ≡ g.actor) × (f.seq ≡ g.seq) × (f.payload ≡ g.payload))
        ⊎ Collision c.sha3
  unfolding compute_content_id body_bytes
  verify-pins f g wf wg hf hg e =
      let same : c.sha3 (body_bytes f) ≡ c.sha3 (body_bytes g) =
        unfold compute_content_id in (content_id_of f hf ∙ e ∙ sym (content_id_of g hg)) in
      elim (Bool-cases (body_bytes f ≟ body_bytes g)) [
        | inl t ↦
            let (e₁, r₁) =
              append-injective f.prev g.prev _ _ (wf.prev.0 ∙ sym wg.prev.0)
                (eq_of_≟ (body_bytes f) (body_bytes g) t) in
            let (e₂, r₂) = append-injective f.actor g.actor _ _ (wf.actor.0 ∙ sym wg.actor.0) r₁ in
            let (e₃, r₃) =
              append-injective (le_bytes 8 f.seq) (le_bytes 8 g.seq) _ _
                (length-le_bytes 8 f.seq ∙ sym (length-le_bytes 8 g.seq)) r₂ in
            inl (e₁, e₂, le_bytes-injective 8 f.seq g.seq wf.seq wg.seq e₃, r₃)
        | inr n ↦ inr (record {
          left = body_bytes f;
          right = body_bytes g;
          differ = ne_of_≟ (body_bytes f) (body_bytes g) n;
          same_hash = same;
        })
      ]
