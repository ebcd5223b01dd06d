-- ===== src/ProtoWire/SyncPeer/Invariant.antt =====
-- What every operation of a peer of bebop2/proto-wire/src/sync_pull.rs keeps.
use open_bebop.Prelude.{
  ℕ, ◌+◌, ◌≤◌, ◌≡◌, refl, ap, sym, ◌∙◌, subst, ◌⊎◌, inl, inr, Bool, true, false, Option, some, List,
  [], ◌∷◌, ltb, if◌then◌else◌, is_ok, Elem, Bool-cases, arith, ◌≟◌, eq_of_≟, ≟-refl, ◌||◌, contains,
}
use open_bebop.Prelude.Bytes.{Bytes, bytes_eq}
use open_bebop.Prelude.Maps.{has_key, lookup-put, has_key-put, Elem-put}
use open_bebop.Crypto.{Crypto}
use open_bebop.ProtoWire.SyncFrame.{SyncFrame, with_content_id, verify}
use open_bebop.ProtoWire.MerkleLog.{holds}
use open_bebop.ProtoWire.MerkleLog.Root.{IsSound, new-IsSound, add-IsSound, holds-add}
use open_bebop.ProtoWire.SyncPeer.{
  Watermark, IngestResult, SyncPeer, or_zero, last_seq, raise, fold_in, ingest_frame, ingest_from,
  ingest, local_commit,
}
use open_bebop.ProtoWire.SyncPeer

-- The digest is the set of the keys, each frame stands at its content-id, and the watermark of an
-- actor is at or above each of its frames.
pub record IsConsistent (p : SyncPeer) : Type 0 where
  pub merkle : IsSound p.merkle
  pub holds_eq : (id : Bytes) → holds p.merkle id ≡ has_key id p.frames
  pub keyed : (id : Bytes) (f : SyncFrame) → Elem (id, f) p.frames → id ≡ f.content_id
  pub within :
      (id : Bytes) (f : SyncFrame) → Elem (id, f) p.frames → f.seq ≤ last_seq f.actor p.max_seq

pub new-IsConsistent : IsConsistent SyncPeer.new
unfolding has_key contains
new-IsConsistent = record {
  merkle = new-IsSound;
  holds_eq = λ id. refl;
  keyed = λ id f m. absurd m;
  within = λ id f m. absurd m;
}

or_zero-if :
    (b : Bool) (n : ℕ) (o : Option ℕ)
    → or_zero (if b then some n else o) ≡ (if b then n else or_zero o)
or_zero-if true n o = refl
or_zero-if false n o = refl

le_raised : (a b : ℕ) → a ≤ (if ltb a b then b else a)
le_raised a b = ground arith

raised_reaches : (a b : ℕ) → b ≤ (if ltb a b then b else a)
raised_reaches a b = ground arith

-- Raising moves one actor's watermark, up to the number given.
pub last_seq-raise :
    (actor other : Bytes) (seq : ℕ) (w : Watermark)
    → last_seq other (raise actor seq w) ≡ (
        if other ≟ actor
        then (if ltb (last_seq actor w) seq then seq else last_seq actor w)
        else last_seq other w)
unfolding raise last_seq
last_seq-raise actor other seq w =
    ap or_zero
      (lookup-put actor other (if ltb (last_seq actor w) seq then seq else last_seq actor w) w)
    ∙ or_zero-if (other ≟ actor) _ _

le-raise :
    (actor other : Bytes) (seq : ℕ) (w : Watermark)
    → last_seq other w ≤ last_seq other (raise actor seq w)
le-raise actor other seq w = elim (Bool-cases (other ≟ actor)) [
  | inl t ↦
      rw (last_seq-raise actor other seq w, t, eq_of_≟ other actor t)
        (le_raised (last_seq actor w) seq)
  | inr f ↦
      rw (last_seq-raise actor other seq w, f)
        (let n = last_seq other w in let r : n ≤ n = omega arith in r)
]

raise-reaches : (actor : Bytes) (seq : ℕ) (w : Watermark) → seq ≤ last_seq actor (raise actor seq w)
raise-reaches actor seq w =
    rw (last_seq-raise actor actor seq w, ≟-refl actor) (raised_reaches (last_seq actor w) seq)

pub fold_in-IsConsistent :
    (id : Bytes) (f : SyncFrame) (p : SyncPeer)
    → id ≡ f.content_id
    → IsConsistent p
    → IsConsistent (fold_in id f p)
unfolding fold_in
fold_in-IsConsistent id f p e s = record {
  merkle = add-IsSound id p.merkle s.merkle;
  holds_eq = λ key.
      holds-add id key p.merkle
      ∙ ap (◌||◌ (key ≟ id)) (s.holds_eq key)
      ∙ sym (has_key-put id key f p.frames);
  keyed = λ key g m. elim (Elem-put id f p.frames (key, g) m) [
    | inl q ↦
        ap (λ (r : Bytes × SyncFrame). r.0) q
        ∙ e
        ∙ sym (ap (λ (r : Bytes × SyncFrame). r.1.content_id) q)
    | inr q ↦ s.keyed key g q
  ];
  within = λ key g m. elim (Elem-put id f p.frames (key, g) m) [
    | inl q ↦
        subst
          (λ (r : Bytes × SyncFrame). r.1.seq ≤ last_seq r.1.actor (raise f.actor f.seq p.max_seq))
          (sym q) (raise-reaches f.actor f.seq p.max_seq)
    | inr q ↦ omega (arith, s.within key g q, le-raise f.actor g.actor f.seq p.max_seq)
  ];
}

module _ (c : Crypto) where
  -- One round of the loop of `ingest`, by its three branches.
  pub ingest_frame-cases :
      (f : SyncFrame) (p : SyncPeer) (res : IngestResult)
      → ((is_ok (verify c f) ≡ false)
          × (ingest_frame c f (p, res) ≡ (p, record res { rejected = res.rejected + 1 })))
        ⊎ (((is_ok (verify c f) ≡ true)
              × (has_key f.content_id p.frames ≡ true)
              × (ingest_frame c f (p, res) ≡ (p, record res { dup = res.dup + 1 })))
            ⊎ ((is_ok (verify c f) ≡ true)
                × (has_key f.content_id p.frames ≡ false)
                × (ingest_frame c f (p, res)
                    ≡ (fold_in f.content_id f p, record res { added = res.added + 1 }))))
  unfolding ingest_frame
  ingest_frame-cases f p res = elim (Bool-cases (is_ok (verify c f))) [
    | inl t ↦ elim (Bool-cases (has_key f.content_id p.frames)) [
      | inl u ↦ inr (inl (t, u, rw (t, u) refl))
      | inr n ↦ inr (inr (t, n, rw (t, n) refl))
    ]
    | inr n ↦ inl (n, rw n refl)
  ]

  ingest_frame-IsConsistent :
      (f : SyncFrame) (p : SyncPeer) (res : IngestResult)
      → IsConsistent p
      → IsConsistent (ingest_frame c f (p, res)).0
  ingest_frame-IsConsistent f p res s = elim (ingest_frame-cases f p res) [
    | inl (n, e) ↦ rw e s
    | inr (inl (t, u, e)) ↦ rw e s
    | inr (inr (t, n, e)) ↦ rw e (fold_in-IsConsistent f.content_id f p refl s)
  ]

  ingest_from-IsConsistent :
      (frames : List SyncFrame) (state : SyncPeer × IngestResult)
      → IsConsistent state.0
      → IsConsistent (ingest_from c frames state).0
  unfolding ingest_from
  ingest_from-IsConsistent [] state s = s
  ingest_from-IsConsistent (f ∷ frames) state s =
      ingest_from-IsConsistent frames (ingest_frame c f state)
        (ingest_frame-IsConsistent f state.0 state.1 s)

  -- Folding a batch of frames keeps a peer consistent, whatever the frames are.
  pub ingest-IsConsistent :
      (frames : List SyncFrame) (p : SyncPeer) → IsConsistent p → IsConsistent (ingest c frames p).0
  unfolding ingest
  ingest-IsConsistent frames p s = ingest_from-IsConsistent frames (p, _) s

  -- So does committing a frame of one's own.
  pub local_commit-IsConsistent :
      (f : SyncFrame) (p : SyncPeer) → IsConsistent p → IsConsistent (local_commit c f p).0
  unfolding local_commit
  local_commit-IsConsistent f p s =
      let g = with_content_id c f in
      elim (Bool-cases (has_key g.content_id p.frames)) [
        | inl t ↦ rw t s
        | inr n ↦ rw n (fold_in-IsConsistent g.content_id g p refl s)
      ]
