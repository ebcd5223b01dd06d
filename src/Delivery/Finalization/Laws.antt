-- ===== src/Delivery/Finalization/Laws.antt =====
-- What the merge rule of bebop2/delivery-domain/src/finalization.rs accepts.
use open_bebop.Prelude.{
  All-Elem, All-of_Elem, ℕ, ◌≡◌, refl, sym, ◌∙◌, ◌↔◌, true, false, Option, none, some, List, [],
  ◌∷◌, ◌≟◌, eq_of_≟, inl, inr, Bool-cases, Result, ok, err, &&_iff, All, arith, ≟-refl,
}
use open_bebop.Prelude.Bytes.{Bytes, bytes_eq}
use open_bebop.Delivery.Finalization.{
  Finalization, link_bytes, is_terminal, split, detect_conflict, verify_chain, check_links, decide,
  if_bound, reconcile,
}
use open_bebop.Delivery.Finalization.Conflict.{Agree, detect_conflict_iff}

-- A record that settles the order to a terminal status.
abbrev pub Settles : ℕ → Finalization → Type 0
Settles order g = (g.order_id ≡ order) × (is_terminal g.status ≡ true)

-- Terminal records are split exactly when their statuses differ.
split-terminal_iff :
    (a b : Finalization)
    → is_terminal a.status ≡ true
    → is_terminal b.status ≡ true
    → (split a b ≡ false) ↔ (a.status ≡ b.status)
unfolding split
split-terminal_iff a b ta tb = (λ e. ground arith, λ e. ground arith)

module _ (h : Bytes → Bytes) where
  -- A record whose hash is that of its fields.
  abbrev pub IsBound : Finalization → Type 0
  IsBound f = h (link_bytes f.order_id f.status f.hub f.quorum_seq f.prev_hash) ≡ f.hash

  own_link_iff : (f : Finalization) → (verify_chain h f.prev_hash f ≡ true) ↔ IsBound f
  unfolding verify_chain
  own_link_iff f = (
    λ e. eq_of_≟ _ f.hash ((&&_iff _ (f.prev_hash ≟ f.prev_hash)).0 e).0,
    λ e. (&&_iff _ _).1 (rw e (≟-refl f.hash), ≟-refl f.prev_hash),
  )

  check_links_iff : (fs : List Finalization) → (check_links h fs ≡ ok tt) ↔ All IsBound fs
  unfolding check_links
  check_links_iff [] = (λ e. tt, λ e. refl)
  check_links_iff (f ∷ fs) = elim (Bool-cases (verify_chain h f.prev_hash f)) [
    | inl t ↦
        rw t
          (λ e. ((own_link_iff f).0 t, (check_links_iff fs).0 e), λ e. (check_links_iff fs).1 e.1)
    | inr n ↦ rw n (λ e. absurd (cc e), λ e. absurd (cc (n, (own_link_iff f).1 e.0)))
  ]

  decide_iff :
      (f : Finalization) (fs : List Finalization) (found : Option (ℕ × ℕ)) (status : ℕ)
      → (decide h (f ∷ fs) found ≡ ok status) ↔ ((found ≡ none) × (status ≡ f.status))
  unfolding decide
  decide_iff f fs none status = (λ e. (refl, cc e), λ e. cc e.1)
  decide_iff f fs (some (i, j)) status = (λ e. absurd (cc e), λ e. absurd (cc e.0))

  if_bound_iff :
      (links : Result (Finalization × Finalization) (Unit {0}))
      (next : Result (Finalization × Finalization) ℕ) (status : ℕ)
      → (if_bound h links next ≡ ok status) ↔ ((links ≡ ok tt) × (next ≡ ok status))
  if_bound_iff (ok u) next status = (λ e. (refl, e), λ e. e.1)
  if_bound_iff (err x) next status = (λ e. absurd (cc e), λ e. absurd (cc e.0))

  reconciled_iff :
      (f : Finalization) (fs : List Finalization) (status : ℕ)
      → (reconcile h (f ∷ fs) ≡ ok status)
        ↔ (All IsBound (f ∷ fs) × Agree f.order_id (f ∷ fs) × (status ≡ f.status))
  unfolding reconcile
  reconciled_iff f fs status = (to, from)
    where
      outer :
          (if_bound h (check_links h (f ∷ fs)) (decide h (f ∷ fs) (detect_conflict (f ∷ fs)))
            ≡ ok status)
          ↔ ((check_links h (f ∷ fs) ≡ ok tt)
              × (decide h (f ∷ fs) (detect_conflict (f ∷ fs)) ≡ ok status))
      outer = if_bound_iff _ _ status

      inner :
          (decide h (f ∷ fs) (detect_conflict (f ∷ fs)) ≡ ok status)
          ↔ ((detect_conflict (f ∷ fs) ≡ none) × (status ≡ f.status))
      inner = decide_iff f fs _ status

      to :
          reconcile h (f ∷ fs) ≡ ok status
          → All IsBound (f ∷ fs) × Agree f.order_id (f ∷ fs) × (status ≡ f.status)
      to e =
          let (links, rest) = outer.0 e in
          let (quiet, same) = inner.0 rest in
          ((check_links_iff (f ∷ fs)).0 links, (detect_conflict_iff f fs).0 quiet, same)

      from :
          All IsBound (f ∷ fs) × Agree f.order_id (f ∷ fs) × (status ≡ f.status)
          → reconcile h (f ∷ fs) ≡ ok status
      from (bound, agree, same) =
          outer.1
            ((check_links_iff (f ∷ fs)).1 bound, inner.1 ((detect_conflict_iff f fs).1 agree, same))

  -- A result for terminal records of one order, by what each record is.
  consensus_iff :
      (f : Finalization) (fs : List Finalization) (status : ℕ)
      → ((reconcile h (f ∷ fs) ≡ ok status) × All (Settles f.order_id) (f ∷ fs))
        ↔ All (λ g. IsBound g × Settles f.order_id g × (g.status ≡ status)) (f ∷ fs)
  consensus_iff f fs status = (to, from)
    where
      to :
          (reconcile h (f ∷ fs) ≡ ok status) × All (Settles f.order_id) (f ∷ fs)
          → All (λ g. IsBound g × Settles f.order_id g × (g.status ≡ status)) (f ∷ fs)
      to (e, settled) =
          let (bound, agree, same) = (reconciled_iff f fs status).0 e in
          let of = All-Elem (Settles f.order_id) in
          All-of_Elem _ (f ∷ fs) (λ g m.
            let (order, terminal) = of g (f ∷ fs) settled m in
            (
              All-Elem IsBound g (f ∷ fs) bound m,
              (order, terminal),
              (split-terminal_iff g f terminal settled.0.1).0 (agree g f m (inl refl) order refl)
                  ∙ sym same,
            ))

      from :
          All (λ g. IsBound g × Settles f.order_id g × (g.status ≡ status)) (f ∷ fs)
          → (reconcile h (f ∷ fs) ≡ ok status) × All (Settles f.order_id) (f ∷ fs)
      from all =
          let each = All-Elem (λ g. IsBound g × Settles f.order_id g × (g.status ≡ status)) in
          (
            (reconciled_iff f fs status).1 (
              All-of_Elem IsBound (f ∷ fs) (λ g m. (each g (f ∷ fs) all m).0),
              λ a b ma mb oa ob.
                  let (ba, sa, ea) = each a (f ∷ fs) all ma in
                  let (bb, sb, eb) = each b (f ∷ fs) all mb in
                  (split-terminal_iff a b sa.1 sb.1).1 (ea ∙ sym eb),
              sym (all.0.2),
            ),
            All-of_Elem (Settles f.order_id) (f ∷ fs) (λ g m. (each g (f ∷ fs) all m).1),
          )

  -- Reconciling is accepted exactly when every record is bound to its hash and no two records of
  -- the order of the first are terminal with different statuses; the result is the first's status,
  -- terminal or not. Where all records are terminal ones of one order, a status is the result
  -- exactly when all are bound and have that status.
  pub reconcile_iff :
      (f : Finalization) (fs : List Finalization) (status : ℕ)
      → ((reconcile h (f ∷ fs) ≡ ok status)
          ↔ (All IsBound (f ∷ fs) × Agree f.order_id (f ∷ fs) × (status ≡ f.status)))
        × (((reconcile h (f ∷ fs) ≡ ok status) × All (Settles f.order_id) (f ∷ fs))
            ↔ All (λ g. IsBound g × Settles f.order_id g × (g.status ≡ status)) (f ∷ fs))
  reconcile_iff f fs status = (reconciled_iff f fs status, consensus_iff f fs status)
