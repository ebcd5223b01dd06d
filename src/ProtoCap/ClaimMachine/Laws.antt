-- ===== src/ProtoCap/ClaimMachine/Laws.antt =====
-- The lifecycle that bebop2/proto-cap/src/claim_machine.rs describes, as a step relation.
use open_bebop.Prelude.{
  ◌≡◌, refl, ap, ◌∙◌, subst, List, [], ◌∷◌, ◌++◌, ◌↔◌, inl, inr, Result, ok, err, >>=-eq-ok,
  Result-cases,
}
use open_bebop.ProtoCap.ClaimMachine.{
  ClaimStatus, offered, claimed, released, picked_up, ClaimError, assert_transition, at,
  fold_transitions,
}

infixl 20 ◌⟶◌
-- The arrows of the lifecycle.
pub data ◌⟶◌ : ClaimStatus → ClaimStatus → Type 0 where
  accept : offered ⟶ claimed
  withdraw : offered ⟶ released
  release : claimed ⟶ released
  pick_up : claimed ⟶ picked_up

-- Runs of the lifecycle, with the statuses they pass.
pub data Run : ClaimStatus → List ClaimStatus → ClaimStatus → Type 0 where
  stop : {s : ClaimStatus} → Run s [] s
  step :
      {s t u : ClaimStatus} {steps : List ClaimStatus} → s ⟶ t → Run t steps u → Run s (t ∷ steps) u

transition_sound : (from to : ClaimStatus) → assert_transition from to ≡ ok tt → from ⟶ to
unfolding assert_transition
transition_sound offered claimed h = accept
transition_sound offered released h = withdraw
transition_sound claimed released h = release
transition_sound claimed picked_up h = pick_up
transition_sound offered offered h = cc
transition_sound offered picked_up h = cc
transition_sound claimed offered h = cc
transition_sound claimed claimed h = cc
transition_sound released offered h = cc
transition_sound released claimed h = cc
transition_sound released released h = cc
transition_sound released picked_up h = cc
transition_sound picked_up offered h = cc
transition_sound picked_up claimed h = cc
transition_sound picked_up released h = cc
transition_sound picked_up picked_up h = cc

transition_complete : {from to : ClaimStatus} → from ⟶ to → assert_transition from to ≡ ok tt
unfolding assert_transition
transition_complete accept = refl
transition_complete withdraw = refl
transition_complete release = refl
transition_complete pick_up = refl

at-eq-ok :
    (cur : ClaimStatus) (r : Result ClaimError (Unit {0})) {u : Unit {0}}
    → at cur r ≡ ok u
    → r ≡ ok tt
at-eq-ok cur (ok u) h = refl
at-eq-ok cur (err e) h = cc

fold_sound :
    (from : ClaimStatus) (steps : List ClaimStatus) (to : ClaimStatus)
    → fold_transitions from steps ≡ ok to
    → Run from steps to
unfolding fold_transitions
fold_sound from [] to h = let e : from ≡ to = cc in subst (λ t. Run from [] t) e stop
fold_sound from (next ∷ steps) to h =
    let (u, now, later) =
      >>=-eq-ok (at from (assert_transition from next)) (λ _. fold_transitions next steps) h in
    step (transition_sound from next (at-eq-ok from (assert_transition from next) now))
      (fold_sound next steps to later)

fold_complete :
    {from : ClaimStatus} {steps : List ClaimStatus} {to : ClaimStatus}
    → Run from steps to
    → fold_transitions from steps ≡ ok to
unfolding fold_transitions
fold_complete stop = refl
fold_complete (step one more) = rw (transition_complete one) (fold_complete more)

-- `fold_transitions` accepts a sequence of statuses and ends in `to` exactly when the sequence is
-- a run of the lifecycle: offered to claimed or released, claimed to released or picked up.
pub fold_transitions_iff :
    (from : ClaimStatus) (steps : List ClaimStatus) (to : ClaimStatus)
    → (fold_transitions from steps ≡ ok to) ↔ Run from steps to
fold_transitions_iff from steps to = (fold_sound from steps to, fold_complete)

err-injective :
    {x y : ClaimError × ClaimStatus}
    → ◌≡◌ {A = Result (ClaimError × ClaimStatus) ClaimStatus} (err x) (err y)
    → x ≡ y
err-injective {x} h = ap (get x) h
  where
    get :
        ClaimError × ClaimStatus
        → Result (ClaimError × ClaimStatus) ClaimStatus
        → ClaimError × ClaimStatus
    get d (ok s) = d
    get d (err p) = p

-- When `fold_transitions` fails, the statuses before the refused one are a run to the status that
-- it reports, and the error is that of the refused step.
pub fold_transitions-error :
    (from : ClaimStatus) (steps : List ClaimStatus) (e : ClaimError) (reached : ClaimStatus)
    → fold_transitions from steps ≡ err (e, reached)
    → (done : List ClaimStatus) × (refused : ClaimStatus) × (rest : List ClaimStatus) × (steps
        ≡ done ++ refused ∷ rest)
      × Run from done reached
      × (assert_transition reached refused ≡ err e)
unfolding fold_transitions
fold_transitions-error from [] e reached h = cc
fold_transitions-error from (next ∷ steps) e reached h =
    elim (Result-cases (assert_transition from next)) [
      | inl (u, good) ↦
          let (done, refused, rest, split, run, why) =
            fold_transitions-error next steps e reached (after good) in
          (
            next ∷ done,
            refused,
            rest,
            ap (◌∷◌ next) split,
            step (transition_sound from next good) run,
            why,
          )
      | inr (e', bad) ↦
          let same_e : e' ≡ e = ap (λ p. p.0) (failed bad) in
          let same_s : from ≡ reached = ap (λ p. p.1) (failed bad) in
          (
            [],
            next,
            steps,
            refl,
            subst (λ t. Run from [] t) same_s stop,
            subst (λ s. assert_transition s next ≡ err e) same_s (bad ∙ ap err same_e),
          )
    ]
  where
    after :
        {u : Unit {0}}
        → assert_transition from next ≡ ok u
        → fold_transitions next steps ≡ err (e, reached)
    after good = rw good at h

    failed :
        {e' : ClaimError}
        → assert_transition from next ≡ err e'
        → ◌≡◌ {A = ClaimError × ClaimStatus} (e', from) (e, reached)
    failed bad = err-injective (rw bad at h)
