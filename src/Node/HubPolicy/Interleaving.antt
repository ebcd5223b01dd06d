-- ===== src/Node/HubPolicy/Interleaving.antt =====
-- Two or more calls of `apply_revision` of bebop2/mesh-node/src/hub_policy.rs at once: each reads
-- the live policy under the lock of `load`, and writes under a second lock.
use open_bebop.Prelude.{◌≡◌, refl, ap, sym, subst, inl, inr, none, some, List, [], ◌∷◌, ◌++◌, Elem}
use open_bebop.Prelude.Bytes.{Bytes, bytes_eq}
use open_bebop.Prelude.Sets.{Elem-append_to, Elem-append_left, Elem-append_right}
use open_bebop.Node.HubPolicy.{HubPolicy, first_widening, stamp}
use open_bebop.Node.HubPolicy.Floor.{Within, first_widening-eq-none}

-- The live policy, and the calls between their read and their write: what each has read, and its
-- candidate.
pub record Store : Type 0 where
  pub live : HubPolicy
  pub pending : List (HubPolicy × HubPolicy)

module _ (h : Bytes → Bytes) where
  pub data Step : Store → Store → Type 0 where
    -- `self.load()`
    load :
        (s t : Store) (candidate : HubPolicy)
        → t ≡ record s { pending = (s.live, candidate) ∷ s.pending }
        → Step s t
    -- The return with `Rejected`.
    refuse :
        (s t : Store) (before after : List (HubPolicy × HubPolicy)) (current candidate : HubPolicy)
        (cat : Bytes)
        → s.pending ≡ before ++ ((current, candidate) ∷ after)
        → first_widening current.red_line_allow candidate.red_line_allow ≡ some cat
        → t ≡ record s { pending = before ++ after }
        → Step s t
    -- `*w = Arc::new(candidate)`
    swap :
        (s t : Store) (before after : List (HubPolicy × HubPolicy)) (current candidate : HubPolicy)
        → s.pending ≡ before ++ ((current, candidate) ∷ after)
        → first_widening current.red_line_allow candidate.red_line_allow ≡ none
        → t ≡ record { live = stamp h current candidate; pending = before ++ after }
        → Step s t

  pub data Reach : Store → Store → Type 0 where
    stop : (s : Store) → Reach s s
    then_ : (s t u : Store) → Reach s t → Step t u → Reach s u

  -- What is live, and what every pending call has read, stays within a list of categories.
  record IsBounded (floor : List Bytes) (s : Store) : Type 0 where
    live : Within floor s.live.red_line_allow
    read :
        (current candidate : HubPolicy)
        → Elem (current, candidate) s.pending
        → Within floor current.red_line_allow

  rest_read :
      (floor : List Bytes) (s : Store) (before after : List (HubPolicy × HubPolicy))
      (p : HubPolicy × HubPolicy)
      → s.pending ≡ before ++ (p ∷ after)
      → IsBounded floor s
      → (current candidate : HubPolicy) → Elem (current, candidate) (before ++ after)
      → Within floor current.red_line_allow
  rest_read floor s before after p e b current candidate m = b.read current candidate (
      subst (Elem (current, candidate)) (sym e)
        (elim (Elem-append_to (current, candidate) before after m) [
          | inl n ↦ Elem-append_left (current, candidate) before (p ∷ after) n
          | inr n ↦ Elem-append_right (current, candidate) before (p ∷ after) (inr n)
        ]))

  Step-IsBounded :
      (floor : List Bytes) (s t : Store) → Step s t → IsBounded floor s → IsBounded floor t
  unfolding stamp
  Step-IsBounded floor s t (load _ _ candidate e) b =
      subst (IsBounded floor) (sym e)
        (record { live = b.live; read = λ current k m. first current k m })
    where
      first :
          (current k : HubPolicy)
          → Elem (current, k) ((s.live, candidate) ∷ s.pending)
          → Within floor current.red_line_allow
      first current k (inl p) =
          subst (λ (c : HubPolicy). Within floor c.red_line_allow)
            (sym (ap (λ (r : HubPolicy × HubPolicy). r.0) p)) b.live
      first current k (inr n) = b.read current k n
  Step-IsBounded floor s t (refuse _ _ before after current candidate cat e f r) b =
      subst (IsBounded floor) (sym r)
        (record { live = b.live; read = rest_read floor s before after (current, candidate) e b })
  Step-IsBounded floor s t (swap _ _ before after current candidate e f r) b =
      let known = b.read current candidate (
        subst (Elem (current, candidate)) (sym e) (
          Elem-append_right (current, candidate) before ((current, candidate) ∷ after)
            (inl refl))) in
      subst (IsBounded floor) (sym r) (record {
        live = λ cat m.
            known cat
              (first_widening-eq-none current.red_line_allow candidate.red_line_allow f cat m);
        read = rest_read floor s before after (current, candidate) e b;
      })

  Reach-IsBounded :
      (floor : List Bytes) (s t : Store) → Reach s t → IsBounded floor s → IsBounded floor t
  Reach-IsBounded floor s t (stop _) b = b
  Reach-IsBounded floor s t (then_ _ m _ r step) b =
      Step-IsBounded floor m t step (Reach-IsBounded floor s m r b)

  -- From a store with no call at work, calls that overlap in any way never put a category into the
  -- live policy that was not live at the start.
  pub reach-floor :
      (s t : Store)
      → s.pending ≡ []
      → Reach s t
      → Within s.live.red_line_allow t.live.red_line_allow
  reach-floor s t idle r =
      (Reach-IsBounded s.live.red_line_allow s t r (record {
        live = λ cat m. m;
        read = λ current candidate m. absurd (subst (Elem (current, candidate)) idle m);
      })).live

  -- Two calls that read one policy, and whose candidates both pass the gate, may both write: the
  -- second is live in the end, under the number that the first had too.
  pub reach-twice :
      (live a b : HubPolicy)
      → first_widening live.red_line_allow a.red_line_allow ≡ none
      → first_widening live.red_line_allow b.red_line_allow ≡ none
      → Reach
          (record { live = live; pending = [] })
          (record { live = stamp h live a; pending = (live, b) ∷ [] })
        × Reach
            (record { live = stamp h live a; pending = (live, b) ∷ [] })
            (record { live = stamp h live b; pending = [] })
        × ((stamp h live a).revision ≡ (stamp h live b).revision)
  unfolding stamp
  reach-twice live a b fa fb =
      let s₀ : Store = record { live = live; pending = [] } in
      let s₁ : Store = record { live = live; pending = (live, b) ∷ [] } in
      let s₂ : Store = record { live = live; pending = (live, a) ∷ (live, b) ∷ [] } in
      let s₃ : Store = record { live = stamp h live a; pending = (live, b) ∷ [] } in
      let s₄ : Store = record { live = stamp h live b; pending = [] } in
      (
        then_ s₀ s₂ s₃
            (then_ s₀ s₁ s₂ (then_ s₀ s₀ s₁ (stop s₀) (load s₀ s₁ b refl)) (load s₁ s₂ a refl))
            (swap s₂ s₃ [] ((live, b) ∷ []) live a refl fa refl),
        then_ s₃ s₃ s₄ (stop s₃) (swap s₃ s₄ [] [] live b refl fb refl),
        refl,
      )
