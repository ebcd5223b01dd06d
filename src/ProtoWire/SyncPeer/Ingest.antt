-- ===== src/ProtoWire/SyncPeer/Ingest.antt =====
-- What a batch of frames does to a peer of bebop2/proto-wire/src/sync_pull.rs, and that a pull
-- makes two peers agree.
use open_bebop.Prelude.{
  ◌<◌, lt→ltb, ◌≡◌, ◌↔◌, refl, ap, sym, ◌∙◌, subst, ◌⊎◌, inl, inr, Bool, true, false, List, [], ◌∷◌,
  map, any, is_ok, Elem, Elem-retain_to, Elem-retain_from, Bool-cases, arith, ◌≟◌, eq_of_≟, ≟-refl,
  ◌||◌, ◌&&◌, &&_iff, ||_iff,
}
use open_bebop.Prelude.Bytes.{Bytes, bytes_eq}
use open_bebop.Prelude.Maps.{has_key, has_key-put}
use open_bebop.Crypto.{Crypto}
use open_bebop.ProtoWire.SyncFrame.{SyncFrame, verify}
use open_bebop.ProtoWire.MerkleLog.Root.{root-eq_of_holds}
use open_bebop.ProtoWire.SyncPeer.{
  IngestResult, SyncPeer, last_seq, past, fold_in, contains, pull, make_pull_request, root,
  ingest_frame, ingest_from, ingest,
}
use open_bebop.ProtoWire.SyncPeer.Invariant.{IsConsistent, ingest_frame-cases, ingest-IsConsistent}

eq_of_both : (a b : Bool) → (a ≡ true → b ≡ true) → (b ≡ true → a ≡ true) → a ≡ b
eq_of_both true b h k = sym (h refl)
eq_of_both false true h k = k refl
eq_of_both false false h k = refl

or_assoc : (a b c : Bool) → ((a || b) || c) ≡ (a || (b || c))
or_assoc a b c = ground arith

or_false : (b : Bool) → b ≡ (b || false)
or_false b = ground arith

pub or_true : (b : Bool) → (b || true) ≡ true
or_true b = ground arith

or_comm : (a b : Bool) → (a || b) ≡ (b || a)
or_comm a b = ground arith

any_to :
    {A : Type 0} (p : A → Bool) (xs : List A) → any p xs ≡ true → (x : A) × Elem x xs × (p x ≡ true)
any_to p [] h = absurd (cc h)
any_to p (x ∷ xs) h = elim (Bool-cases (p x)) [
  | inl t ↦ (x, inl refl, t)
  | inr f ↦ let (y, m, t) = any_to p xs (rw f at h) in (y, inr m, t)
]

pub any_from :
    {A : Type 0} (p : A → Bool) (xs : List A) (x : A) → Elem x xs → p x ≡ true → any p xs ≡ true
any_from p [] x m t = absurd m
any_from p (y ∷ xs) x (inl e) t = rw (ap p (sym e) ∙ t) refl
any_from p (y ∷ xs) x (inr m) t = rw (any_from p xs x m t) (or_true (p y))

module _ (c : Crypto) where
  -- The frame is accepted, under this content-id.
  abbrev pub brings : Bytes → SyncFrame → Bool
  brings id f = is_ok (verify c f) && id ≟ f.content_id

  contains-ingest_frame :
      (f : SyncFrame) (p : SyncPeer) (res : IngestResult) (id : Bytes)
      → contains (ingest_frame c f (p, res)).0 id ≡ (contains p id || brings id f)
  unfolding fold_in
  contains-ingest_frame f p res id = elim (ingest_frame-cases c f p res) [
    | inl (n, e) ↦ rw (e, n) (or_false (contains p id))
    | inr (inl (t, u, e)) ↦ rw (e, t) (known u)
    | inr (inr (t, n, e)) ↦
        rw (e, t)
          (has_key-put f.content_id id f p.frames ∙ or_comm (id ≟ f.content_id) (contains p id))
  ]
    where
      known :
          has_key f.content_id p.frames ≡ true
          → contains p id ≡ (contains p id || id ≟ f.content_id)
      known u = elim (Bool-cases (id ≟ f.content_id)) [
        | inl t ↦ rw t (rw (eq_of_≟ id f.content_id t) u ∙ sym (or_true (contains p id)))
        | inr n ↦ rw n (or_false (contains p id))
      ]

  contains-ingest_from :
      (frames : List SyncFrame) (state : SyncPeer × IngestResult) (id : Bytes)
      → contains (ingest_from c frames state).0 id ≡ (contains state.0 id || any (brings id) frames)
  unfolding ingest_from
  contains-ingest_from [] state id = or_false (contains state.0 id)
  contains-ingest_from (f ∷ frames) state id =
      contains-ingest_from frames (ingest_frame c f state) id
      ∙ ap (λ b. b || any (brings id) frames) (contains-ingest_frame f state.0 state.1 id)
      ∙ or_assoc (contains state.0 id) (brings id f) (any (brings id) frames)

  -- After a batch a peer holds what it held and what the batch brings.
  pub contains-ingest :
      (frames : List SyncFrame) (p : SyncPeer) (id : Bytes)
      → contains (ingest c frames p).0 id ≡ (contains p id || any (brings id) frames)
  unfolding ingest
  contains-ingest frames p id = contains-ingest_from frames (p, _) id

  root-eq_of_contains :
      (p q : SyncPeer)
      → IsConsistent p
      → IsConsistent q
      → ((id : Bytes) → contains p id ≡ contains q id)
      → root c p ≡ root c q
  unfolding root
  root-eq_of_contains p q sp sq same =
      root-eq_of_holds c.sha3 p.merkle q.merkle sp.merkle sq.merkle
        (λ id. sp.holds_eq id ∙ same id ∙ sym (sq.holds_eq id))

  -- The order of a batch, and what it repeats, do not change the root that it leads to.
  pub root-ingest :
      (frames others : List SyncFrame) (p : SyncPeer)
      → IsConsistent p
      → ((f : SyncFrame) → Elem f frames ↔ Elem f others)
      → root c (ingest c frames p).0 ≡ root c (ingest c others p).0
  root-ingest frames others p s same =
      root-eq_of_contains (ingest c frames p).0 (ingest c others p).0
        (ingest-IsConsistent c frames p s) (ingest-IsConsistent c others p s)
        (λ id.
          contains-ingest frames p id
          ∙ ap (◌||◌ (contains p id)) (brought id)
          ∙ sym (contains-ingest others p id))
    where
      brought : (id : Bytes) → any (brings id) frames ≡ any (brings id) others
      brought id =
          eq_of_both _ _
            (λ t.
              let (f, m, b) = any_to (brings id) frames t in
              any_from (brings id) others f ((same f).0 m) b)
            (λ t.
              let (f, m, b) = any_to (brings id) others t in
              any_from (brings id) frames f ((same f).1 m) b)

  Elem-map_entry :
      (entries : List (Bytes × SyncFrame)) (f : SyncFrame)
      → Elem f (map (λ (entry : Bytes × SyncFrame). entry.1) entries)
      → (id : Bytes) × Elem (id, f) entries
  Elem-map_entry [] f m = absurd m
  Elem-map_entry ((id, g) ∷ entries) f (inl e) = (id, inl (λ i. (id, e i)))
  Elem-map_entry ((id, g) ∷ entries) f (inr m) =
      let (key, n) = Elem-map_entry entries f m in (key, inr n)

  Elem-entry_map :
      (entries : List (Bytes × SyncFrame)) (id : Bytes) (f : SyncFrame)
      → Elem (id, f) entries
      → Elem f (map (λ (entry : Bytes × SyncFrame). entry.1) entries)
  Elem-entry_map [] id f m = absurd m
  Elem-entry_map (entry ∷ entries) id f (inl e) = inl (ap (λ (r : Bytes × SyncFrame). r.1) e)
  Elem-entry_map (entry ∷ entries) id f (inr m) = inr (Elem-entry_map entries id f m)

  has_key_to :
      (entries : List (Bytes × SyncFrame)) (id : Bytes)
      → has_key id entries ≡ true
      → (f : SyncFrame) × Elem (id, f) entries
  unfolding has_key
  has_key_to [] id h = absurd (cc h)
  has_key_to ((key, f) ∷ entries) id h = elim (Bool-cases (id ≟ key)) [
    | inl t ↦ (f, inl (λ i. (eq_of_≟ id key t i, f)))
    | inr n ↦ let (g, m) = has_key_to entries id (rw n at h) in (g, inr m)
  ]

  has_key_from :
      (entries : List (Bytes × SyncFrame)) (id : Bytes) (f : SyncFrame)
      → Elem (id, f) entries
      → has_key id entries ≡ true
  unfolding has_key
  has_key_from [] id f m = absurd m
  has_key_from ((key, g) ∷ entries) id f (inl e) =
      rw (ap (λ (r : Bytes × SyncFrame). r.0) e) (rw (≟-refl key) refl)
  has_key_from ((key, g) ∷ entries) id f (inr m) =
      rw (has_key_from entries id f m) (or_true (id ≟ key))

  -- After one pull a peer has the root of the peer that answered it, if what it held was held
  -- there, and every frame held there verifies and has a number above its watermark or was held already.
  pub pull-converges :
      (p q : SyncPeer)
      → IsConsistent p
      → IsConsistent q
      → ((id : Bytes) → contains p id ≡ true → contains q id ≡ true)
      → ((id : Bytes) (f : SyncFrame)
          → Elem (id, f) q.frames
          → (is_ok (verify c f) ≡ true)
            × ((last_seq f.actor p.max_seq < f.seq) ⊎ (contains p id ≡ true)))
      → root c (ingest c (pull (make_pull_request p) q) p).0 ≡ root c q
  unfolding pull make_pull_request
  pull-converges p q sp sq held fit =
      root-eq_of_contains (ingest c (pull p.max_seq q) p).0 q
        (ingest-IsConsistent c (pull p.max_seq q) p sp) sq
        (λ id. contains-ingest (pull p.max_seq q) p id ∙ eq_of_both _ _ (to id) (from id))
    where
      answer : List SyncFrame
      answer = pull p.max_seq q

      to : (id : Bytes) → (contains p id || any (brings id) answer) ≡ true → contains q id ≡ true
      to id h = elim ((||_iff (contains p id) (any (brings id) answer)).0 h) [
        | inl t ↦ held id t
        | inr t ↦
            let (f, m, b) = any_to (brings id) answer t in
            let (n, late) = Elem-retain_to (past p.max_seq) f _ m in
            let (key, at) = Elem-map_entry q.frames f n in
            let e : key ≡ id =
              sq.keyed key f at
              ∙ sym (
                  eq_of_≟ id f.content_id
                    ((&&_iff (is_ok (verify c f)) (id ≟ f.content_id)).0 b).1) in
            subst (λ k. has_key k q.frames ≡ true) e (has_key_from q.frames key f at)
      ]

      from : (id : Bytes) → contains q id ≡ true → (contains p id || any (brings id) answer) ≡ true
      from id h =
          let (f, m) = has_key_to q.frames id h in
          let (v, where_) = fit id f m in
          (||_iff (contains p id) (any (brings id) answer)).1 (elim where_ [
            | inr old ↦ inl old
            | inl late ↦ inr (
                any_from (brings id) answer f
                  (Elem-retain_from (past p.max_seq) f _ (Elem-entry_map q.frames id f m)
                    (lt→ltb (last_seq f.actor p.max_seq) f.seq late))
                  (rw (v, sq.keyed id f m) (≟-refl f.content_id)))
          ])
