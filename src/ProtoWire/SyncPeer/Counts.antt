-- ===== src/ProtoWire/SyncPeer/Counts.antt =====
-- The counts of `ingest` of bebop2/proto-wire/src/sync_pull.rs, and folding a batch again.
use open_bebop.Prelude.{
  ℕ, ◌+◌, ◌≡◌, refl, ap, ◌∙◌, inl, inr, true, false, List, [], ◌∷◌, length, is_ok, Elem, arith, ◌≟◌,
  ≟-refl, ◌||◌, ||_false,
}
use open_bebop.Prelude.Bytes.{Bytes, bytes_eq}
use open_bebop.Prelude.Maps.{has_key, put}
use open_bebop.Crypto.{Crypto}
use open_bebop.ProtoWire.SyncFrame.{SyncFrame, verify}
use open_bebop.ProtoWire.SyncPeer.{
  IngestResult, SyncPeer, fold_in, len, ingest_frame, ingest_from, ingest, contains,
}
use open_bebop.ProtoWire.SyncPeer.Ingest.{contains-ingest, any_from, brings, or_true}
use open_bebop.ProtoWire.SyncPeer.Invariant.{ingest_frame-cases}

length-put_new :
    (id : Bytes) (f : SyncFrame) (m : List (Bytes × SyncFrame))
    → has_key id m ≡ false
    → length (put id f m) ≡ length m + 1
unfolding has_key put
length-put_new id f [] h = refl
length-put_new id f ((k, g) ∷ m) h =
    let (apart, rest) = ||_false (id ≟ k) (has_key id m) h in
    rw apart (omega (arith, length-put_new id f m rest))

module _ (c : Crypto) where
  abbrev total : IngestResult → ℕ
  total r = r.added + r.dup + r.rejected

  ingest_frame-counts :
      (f : SyncFrame) (p : SyncPeer) (res : IngestResult)
      → let (after, r) = ingest_frame c f (p, res) in
        (total r ≡ total res + 1) × (len after + res.added ≡ len p + r.added)
  unfolding fold_in
  ingest_frame-counts f p res = elim (ingest_frame-cases c f p res) [
    | inl (n, e) ↦ rw e (omega arith, refl)
    | inr (inl (t, u, e)) ↦ rw e (omega arith, refl)
    | inr (inr (t, n, e)) ↦
        rw e (omega arith, omega (arith, length-put_new f.content_id f p.frames n))
  ]

  ingest_from-counts :
      (frames : List SyncFrame) (p : SyncPeer) (res : IngestResult)
      → let (after, r) = ingest_from c frames (p, res) in
        (total r ≡ total res + length frames) × (len after + res.added ≡ len p + r.added)
  unfolding ingest_from
  ingest_from-counts [] p res = (omega arith, refl)
  ingest_from-counts (f ∷ frames) p res =
      let (first, grown) = ingest_frame-counts f p res in
      let state = ingest_frame c f (p, res) in
      let (rest, more) = ingest_from-counts frames state.0 state.1 in
      (omega (arith, first, rest), omega (arith, grown, more))

  -- Every frame of a batch is counted once, as added, known or rejected, and the log grows by the
  -- frames that are counted as added.
  pub ingest-counts :
      (frames : List SyncFrame) (p : SyncPeer)
      → ((ingest c frames p).1.added + (ingest c frames p).1.dup + (ingest c frames p).1.rejected
          ≡ length frames)
        × (len (ingest c frames p).0 ≡ len p + (ingest c frames p).1.added)
  unfolding ingest
  ingest-counts frames p =
      let (all, grown) =
        ingest_from-counts frames p (record { added = 0; dup = 0; rejected = 0 }) in
      (omega (arith, all), omega (arith, grown))

  -- A batch of which a peer holds every frame that verifies changes nothing and adds nothing.
  known_batch :
      (frames : List SyncFrame) (p : SyncPeer) (res : IngestResult)
      → ((f : SyncFrame)
          → Elem f frames
          → is_ok (verify c f) ≡ true
          → contains p f.content_id ≡ true)
      → ((ingest_from c frames (p, res)).0 ≡ p)
        × ((ingest_from c frames (p, res)).1.added ≡ res.added)
  unfolding ingest_from
  known_batch [] p res held = (refl, refl)
  known_batch (f ∷ frames) p res held = elim (ingest_frame-cases c f p res) [
    | inl (n, e) ↦ rw (ingest_from, e) (known_batch frames p _ (λ g m. held g (inr m)))
    | inr (inl (t, u, e)) ↦ rw (ingest_from, e) (known_batch frames p _ (λ g m. held g (inr m)))
    | inr (inr (t, n, e)) ↦ absurd (cc (n, held f (inl refl) t))
  ]

  -- Folding a batch a second time leaves the peer as it is and adds no frame.
  pub ingest-ingest :
      (frames : List SyncFrame) (p : SyncPeer)
      → let after = (ingest c frames p).0 in
        ((ingest c frames after).0 ≡ after) × ((ingest c frames after).1.added ≡ 0)
  unfolding ingest
  ingest-ingest frames p = known_batch frames (ingest c frames p).0 _ (λ f m t.
      contains-ingest c frames p f.content_id
      ∙ ap (◌||◌ (contains p f.content_id))
          (any_from (brings c f.content_id) frames f m (rw t (≟-refl f.content_id)))
      ∙ or_true (contains p f.content_id))
