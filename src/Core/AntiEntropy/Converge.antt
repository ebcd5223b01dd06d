-- ===== src/Core/AntiEntropy/Converge.antt =====
-- A whole session of bebop2/core/src/anti_entropy.rs: digests, plan, replay and pull.
use open_bebop.Prelude.{
  ℕ, zero, suc, ◌+◌, ◌-◌, ◌<◌, ◌≡◌, ◌≢◌, refl, sym, ap, ◌∙◌, subst, false, none, some, List, [],
  ◌∷◌, ◌++◌, map, map-append, length, length-map, get_elem?, take, drop, drop-append, take-ge, ltb,
  lt→ltb, le→ltb, ◌==◌, ==_iff, if◌then◌else◌, ok, err, arith,
}
use open_bebop.Prelude.Bytes.{Bytes, bytes_eq}
use open_bebop.Core.EventLog.{
  Entry, EventLog, genesis, new, root_hash, len, entry, append, append_all, rebuild_from_payloads,
  verify, replay_all, does_not_continue,
}
use open_bebop.Core.EventLog.Chain.{
  entries_of, rebuild-entries, append_all-entries, verify-rebuild, root_hash-append, len-append,
}
use open_bebop.Core.EventLog.Replay.{view, replay_all_lem}
use open_bebop.Core.AntiEntropy.{first_divergence, diff, digest_from, digest, apply_pull}
use open_bebop.Core.AntiEntropy.Divergence.{
  tip, IsFirstDivergence, first_divergence_lem, diff-prefix, get_or_seq, get_or-some, diff-diverged,
}

module _ (h : Bytes → Bytes) where
  digest_from-entries :
      (prev : Bytes) (n : ℕ) (ps : List Bytes)
      → digest_from h prev (map view (entries_of h prev n ps)) ≡ map tip (entries_of h prev n ps)
  unfolding digest_from entries_of
  digest_from-entries prev n [] = refl
  digest_from-entries prev n (p ∷ ps) =
      ap (◌∷◌ (tip (entry h prev n p))) (digest_from-entries (entry h prev n p).hash (n + 1) ps)

  chain : List Bytes → List Entry
  chain ps = entries_of h genesis 0 ps

  digest-rebuild : (ps : List Bytes) → digest h (rebuild_from_payloads h ps) ≡ map tip (chain ps)
  unfolding digest chain
  digest-rebuild ps =
      rw (replay_all_lem (rebuild_from_payloads h ps) 0, rebuild-entries h ps)
        (digest_from-entries genesis 0 ps)

  length-entries_of :
      (prev : Bytes) (n : ℕ) (ps : List Bytes) → length (entries_of h prev n ps) ≡ length ps
  unfolding entries_of
  length-entries_of prev n [] = refl
  length-entries_of prev n (p ∷ ps) = ap suc (length-entries_of (entry h prev n p).hash (n + 1) ps)

  len-rebuild : (ps : List Bytes) → len (rebuild_from_payloads h ps) ≡ length ps
  unfolding len
  len-rebuild ps = rw (rebuild-entries h ps) (length-entries_of genesis 0 ps)

  append_all-append :
      (log : EventLog) (ps qs : List Bytes)
      → append_all h log (ps ++ qs) ≡ append_all h (append_all h log ps) qs
  unfolding append_all
  append_all-append log [] qs = refl
  append_all-append log (p ∷ ps) qs = append_all-append (append h log p).0 ps qs

  rebuild-append :
      (ps qs : List Bytes)
      → rebuild_from_payloads h (ps ++ qs) ≡ append_all h (rebuild_from_payloads h ps) qs
  unfolding rebuild_from_payloads
  rebuild-append ps qs = append_all-append new ps qs

  -- The entries behind a prefix, as they stand in the longer log.
  suffix : List Bytes → List Bytes → List Entry
  suffix ps qs =
      entries_of h (root_hash (rebuild_from_payloads h ps)) (len (rebuild_from_payloads h ps)) qs

  chain-append : (ps qs : List Bytes) → chain (ps ++ qs) ≡ chain ps ++ suffix ps qs
  unfolding chain suffix
  chain-append ps qs =
      sym (rebuild-entries h (ps ++ qs))
      ∙ ap (λ l. l.entries) (rebuild-append ps qs)
      ∙ append_all-entries h (rebuild_from_payloads h ps) qs
      ∙ ap (λ es. es ++ suffix ps qs) (rebuild-entries h ps)

  -- Pulling the continuation of a log appends it.
  apply_pull-continues :
      (log : EventLog) (qs : List Bytes)
      → apply_pull h log (map view (entries_of h (root_hash log) (len log) qs))
        ≡ (append_all h log qs, verify h (append_all h log qs))
  unfolding apply_pull append_all entries_of
  apply_pull-continues log [] = refl
  apply_pull-continues log (q ∷ qs) =
      let next = (append h log q).0 in
      let seqs = (==_iff (len log) (len log)).1 refl in
      rw seqs (
        subst
          (λ es.
            apply_pull h next (map view es)
            ≡ (append_all h next qs, verify h (append_all h next qs)))
          (λ i. entries_of h (root_hash-append h log q i) (len-append h log q i) qs)
          (apply_pull-continues next qs))

  rebuild-more :
      (ps qs : List Bytes)
      → apply_pull h (rebuild_from_payloads h ps) (map view (suffix ps qs))
        ≡ (rebuild_from_payloads h (ps ++ qs), ok tt)
  unfolding suffix
  rebuild-more ps qs =
      apply_pull-continues (rebuild_from_payloads h ps) qs
      ∙ ap (λ l. (l, verify h l)) (sym (rebuild-append ps qs))
      ∙ ap (λ v. (rebuild_from_payloads h (ps ++ qs), v)) (verify-rebuild h (ps ++ qs))

  replay-suffix :
      (ps qs : List Bytes)
      → replay_all (rebuild_from_payloads h (ps ++ qs)) (length ps) ≡ map view (suffix ps qs)
  unfolding chain
  replay-suffix ps qs =
      replay_all_lem (rebuild_from_payloads h (ps ++ qs)) (length ps)
      ∙ ap (λ es. map view (drop (length ps) es))
          (rebuild-entries h (ps ++ qs) ∙ chain-append ps qs)
      ∙ ap (map view)
          (drop-append (length ps) (chain ps) (suffix ps qs) (length-entries_of genesis 0 ps))

  length-view-suffix : (ps qs : List Bytes) → length (map view (suffix ps qs)) ≡ length qs
  unfolding suffix
  length-view-suffix ps qs =
      length-map view (suffix ps qs)
      ∙ length-entries_of (root_hash (rebuild_from_payloads h ps))
          (len (rebuild_from_payloads h ps)) qs

  -- The plan between a log and a longer one that continues it.
  plan-behind :
      (ps qs : List Bytes)
      → diff (digest h (rebuild_from_payloads h ps)) (digest h (rebuild_from_payloads h (ps ++ qs)))
        ≡ (if ltb (length ps) (length ps + length qs)
            then record {
              divergence_seq = some (length ps);
              pull_from = length ps;
              pull_len = length ps + length qs - length ps;
            }
            else record { divergence_seq = none; pull_from = 0; pull_len = 0 })
  unfolding chain suffix
  plan-behind ps qs =
      rw
        (
          digest-rebuild ps,
          digest-rebuild (ps ++ qs),
          chain-append ps qs,
          map-append tip (chain ps) (suffix ps qs),
        )
        (rw (diff-prefix (map tip (chain ps)) (map tip (suffix ps qs))) (
          rw (
            length-map tip (chain ps),
            length-map tip (suffix ps qs),
            length-entries_of genesis 0 ps,
            length-entries_of (root_hash (rebuild_from_payloads h ps))
                (len (rebuild_from_payloads h ps)) qs,
          )))

  -- For a log rebuilt from payloads and another rebuilt from these and further ones: the plan
  -- that the two digests give makes a pull that turns the first into the second, and the result
  -- passes verification. With no further payloads nothing is pulled.
  pub sync_converges :
      (ps qs : List Bytes)
      → let local = rebuild_from_payloads h ps in
        let remote = rebuild_from_payloads h (ps ++ qs) in
        let plan = diff (digest h local) (digest h remote) in
        apply_pull h local (take plan.pull_len (replay_all remote plan.pull_from)) ≡ (remote, ok tt)
  unfolding suffix entries_of
  sync_converges ps [] =
      rw (plan-behind ps [], le→ltb (length ps) (length ps + 0) (omega arith)) (rebuild-more ps [])
  sync_converges ps (q ∷ qs) =
      rw (plan-behind ps (q ∷ qs), lt→ltb (length ps) (length ps + suc (length qs)) (omega arith))
        (rw
          (
            replay-suffix ps (q ∷ qs),
            take-ge (map view (suffix ps (q ∷ qs))) (length ps + suc (length qs) - length ps)
                (omega (arith, length-view-suffix ps (q ∷ qs))),
          )
          (rebuild-more ps (q ∷ qs)))

  entry_at :
      (prev : Bytes) (n : ℕ) (ps : List Bytes) (i : ℕ) (x : ℕ × Bytes)
      → get_elem? (map tip (entries_of h prev n ps)) i ≡ some x
      → (x.0 ≡ n + i) × (i < length ps)
  unfolding entries_of
  entry_at prev n [] i x e = cc
  entry_at prev n (p ∷ ps) zero x e =
      let same : n ≡ x.0 = ap (λ o. get_or_seq o n) e in (omega arith, omega arith)
  entry_at prev n (p ∷ ps) (suc i) x e =
      let (s, l) = entry_at (entry h prev n p).hash (n + 1) ps i x e in (omega arith, omega arith)

  -- The items that replay yields from an index on begin with that index.
  items_at :
      (prev : Bytes) (n : ℕ) (ps : List Bytes) (i : ℕ)
      → i < length ps
      → (payload : Bytes) × (rest : List (ℕ × Bytes)) × (map view (drop i (entries_of h prev n ps))
          ≡ (n + i, payload) ∷ rest)
  unfolding entries_of
  items_at prev n [] i l = absurd (omega arith)
  items_at prev n (p ∷ ps) zero l =
      let start : n ≡ n + 0 = omega arith in
      let rest = map view (entries_of h (entry h prev n p).hash (n + 1) ps) in
      (p, rest, λ k. (start k, p) ∷ rest)
  items_at prev n (p ∷ ps) (suc i) l =
      let (payload, rest, e) = items_at (entry h prev n p).hash (n + 1) ps i (omega arith) in
      let moved : n + 1 + i ≡ n + suc i = omega arith in
      (payload, rest, e ∙ (λ k. (moved k, payload) ∷ rest))

  apply_pull-misaligned :
      (log : EventLog) (seq : ℕ) (payload : Bytes) (rest : List (ℕ × Bytes))
      → seq ≢ len log
      → apply_pull h log ((seq, payload) ∷ rest)
        ≡ (log, err (record { seq = seq; reason = does_not_continue }))
  unfolding apply_pull
  apply_pull-misaligned log seq payload rest ne =
      let off : (seq == len log) ≡ false = ground arith in rw off

  -- Two logs rebuilt from payloads whose digests first differ at an entry both have: the plan
  -- points at that entry, and pulling from there is refused at it and leaves the local log as it
  -- was.
  pub fork_refused :
      (ps qs : List Bytes) (i : ℕ)
      → first_divergence
          (digest h (rebuild_from_payloads h ps))
          (digest h (rebuild_from_payloads h qs))
        ≡ some i
      → let local = rebuild_from_payloads h ps in
        let remote = rebuild_from_payloads h qs in
        let plan = diff (digest h local) (digest h remote) in
        (plan.pull_from ≡ i)
        × (apply_pull h local (replay_all remote plan.pull_from)
            ≡ (local, err (record { seq = i; reason = does_not_continue })))
  unfolding chain
  fork_refused ps qs i e =
      let local = rebuild_from_payloads h ps in
      let remote = rebuild_from_payloads h qs in
      let (x, y, mine, theirs, _, _) =
        subst (IsFirstDivergence (digest h local) (digest h remote)) e
          (first_divergence_lem (digest h local) (digest h remote)) in
      let (seq, inside) =
        entry_at genesis 0 ps i x (subst (λ d. get_elem? d i ≡ some x) (digest-rebuild ps) mine) in
      let (_, within) =
        entry_at genesis 0 qs i y
          (subst (λ d. get_elem? d i ≡ some y) (digest-rebuild qs) theirs) in
      let (payload, rest, items) = items_at genesis 0 qs i within in
      let from : (diff (digest h local) (digest h remote)).pull_from ≡ i =
        diff-diverged (digest h local) (digest h remote) i e
        ∙ ap (λ z. z.0) (get_or-some (digest h local) i x (0, []) mine)
        ∙ seq
        ∙ (let z : 0 + i ≡ i = omega arith in z) in
      let replayed : replay_all remote i ≡ (i, payload) ∷ rest =
        replay_all_lem remote i
        ∙ ap (λ es. map view (drop i es)) (rebuild-entries h qs)
        ∙ items
        ∙ (let z : 0 + i ≡ i = omega arith in λ k. (z k, payload) ∷ rest) in
      let ahead : i ≢ len local = rw (len-rebuild ps) (omega arith) in
      (from, rw (from, replayed) (apply_pull-misaligned local i payload rest ahead))
