-- ===== src/Node/HubPolicy/Floor.antt =====
-- The floor-gate of bebop2/mesh-node/src/hub_policy.rs: what a revision may not add.
use open_bebop.Prelude.{
  ◌+◌, ◌%◌, ◌^◌, ◌≡◌, refl, sym, subst, ◌⊎◌, inl, inr, false, none, some, List, [], ◌∷◌, Elem,
  contains, contains→Elem, Bool-cases, Option-cases,
}
use open_bebop.Prelude.Bytes.{Bytes, bytes_eq}
use open_bebop.Node.HubPolicy.{HubPolicy, applied, rejected, first_widening, stamp, apply_revision}

-- The categories of the second list are among those of the first.
abbrev pub Within : List Bytes → List Bytes → Type 0
Within live cats = (cat : Bytes) → Elem cat cats → Elem cat live

pub first_widening-eq-none :
    (live cats : List Bytes) → first_widening live cats ≡ none → Within live cats
unfolding first_widening
first_widening-eq-none live [] h cat m = absurd m
first_widening-eq-none live (c ∷ cats) h cat m = elim (Bool-cases (contains live c)) [
  | inl t ↦ later (contains→Elem live c t) (first_widening-eq-none live cats (rw t at h)) m
  | inr f ↦ absurd (cc (rw f at h))
]
  where
    later : Elem c live → Within live cats → (cat ≡ c) ⊎ Elem cat cats → Elem cat live
    later here rest (inl e) = subst (λ z. Elem z live) (sym e) here
    later here rest (inr n) = rest cat n

first_widening-eq-some :
    (live cats : List Bytes) (cat : Bytes)
    → first_widening live cats ≡ some cat
    → Elem cat cats × (contains live cat ≡ false)
unfolding first_widening
first_widening-eq-some live [] cat h = absurd (cc h)
first_widening-eq-some live (c ∷ cats) cat h = elim (Bool-cases (contains live c)) [
  | inl t ↦ let (m, new) = first_widening-eq-some live cats cat (rw t at h) in (inr m, new)
  | inr f ↦
      let e : c ≡ cat = cc (rw f at h) in (inl (sym e), subst (λ z. contains live z ≡ false) e f)
]

module _ (h : Bytes → Bytes) where
  -- With no other call at work, a revision either adds no category, goes live under the next
  -- number and is reported with its hash, or adds the one that the refusal names and nothing
  -- changes.
  pub apply_revision-cases :
      (candidate live : HubPolicy)
      → (Within live.red_line_allow candidate.red_line_allow
          × (apply_revision h candidate live ≡ (
            stamp h live candidate,
            applied ((live.revision + 1) % 2 ^ 64) (stamp h live candidate).policy_sha3,
          )))
        ⊎ ((cat : Bytes) × Elem cat candidate.red_line_allow
            × (contains live.red_line_allow cat ≡ false)
            × (apply_revision h candidate live ≡ (live, rejected cat)))
  unfolding apply_revision stamp
  apply_revision-cases candidate live =
      elim (Option-cases (first_widening live.red_line_allow candidate.red_line_allow)) [
        | inl quiet ↦ inl (
          first_widening-eq-none live.red_line_allow candidate.red_line_allow quiet,
          rw (apply_revision, quiet) refl,
        )
        | inr (cat, found) ↦
            let (m, new) =
              first_widening-eq-some live.red_line_allow candidate.red_line_allow cat found in
            inr (cat, m, new, rw (apply_revision, found) refl)
      ]
