-- ===== src/Core/AntiEntropy/Divergence.antt =====
-- The comparison of two digests in bebop2/core/src/anti_entropy.rs, and the plan it leads to.
use open_bebop.Prelude.{
  ℕ, zero, suc, ◌+◌, ◌-◌, ◌≡◌, ◌≢◌, refl, inl, inr, Option, none, some, List, [], ◌∷◌, ◌++◌, map,
  length, length-append, get_elem?, get_or, take, ltb, if◌then◌else◌, ◌≟◌, ≟-refl, eq_of_≟, ne_of_≟,
  Bool-cases,
}
use open_bebop.Prelude.Bytes.{Bytes, bytes_eq}
use open_bebop.Core.EventLog.{Entry}
use open_bebop.Core.AntiEntropy.{Digest, first_divergence, diff}

abbrev pub tip : Entry → ℕ × Bytes
tip e = (e.seq, e.hash)

-- The hashes of a digest.
abbrev pub hashes : Digest → List Bytes
hashes d = map (λ x. x.1) d

-- The hashes agree as far as both digests go.
abbrev pub Agree : Digest → Digest → Type 0
Agree [] b = Unit {0}
Agree (x ∷ a) [] = Unit {0}
Agree (x ∷ a) (y ∷ b) = (x.1 ≡ y.1) × Agree a b

-- What the first divergence is: the hashes before it agree and those at it differ; where there is
-- none they agree as far as both go.
abbrev pub IsFirstDivergence : Digest → Digest → Option ℕ → Type 0
IsFirstDivergence a b (some i) =
    (x : ℕ × Bytes) × (y : ℕ × Bytes) × (get_elem? a i ≡ some x)
    × (get_elem? b i ≡ some y)
    × (x.1 ≢ y.1)
    × (hashes (take i a) ≡ hashes (take i b))
IsFirstDivergence a b none = Agree a b

-- The comparison of two digests finds the first entry at which their hashes differ; where it finds
-- none, they agree as far as both go.
pub first_divergence_lem : (a b : Digest) → IsFirstDivergence a b (first_divergence a b)
unfolding first_divergence
first_divergence_lem [] b = tt
first_divergence_lem (x ∷ a) [] = tt
first_divergence_lem (x ∷ a) (y ∷ b) = elim (Bool-cases (x.1 ≟ y.1)) [
  | inl t ↦ rw t (later (first_divergence a b) (eq_of_≟ x.1 y.1 t) (first_divergence_lem a b))
  | inr f ↦ rw f (x, y, refl, refl, ne_of_≟ x.1 y.1 f, refl)
]
  where
    later :
        (o : Option ℕ)
        → x.1 ≡ y.1
        → IsFirstDivergence a b o
        → IsFirstDivergence (x ∷ a) (y ∷ b) (elim o [ none ↦ none | some i ↦ some (suc i) ])
    later none e h = (e, h)
    later (some i) e (u, v, p, q, d, h) = (u, v, p, q, d, λ k. e k ∷ h k)

pub first_divergence-prefix : (a b : Digest) → first_divergence a (a ++ b) ≡ none
unfolding first_divergence
first_divergence-prefix [] b = refl
first_divergence-prefix (x ∷ a) b = rw (≟-refl x.1, first_divergence-prefix a b)

pub diff-prefix :
    (a b : Digest)
    → diff a (a ++ b) ≡ (
        if ltb (length a) (length a + length b)
        then record {
          divergence_seq = some (length a);
          pull_from = length a;
          pull_len = length a + length b - length a;
        }
        else record { divergence_seq = none; pull_from = 0; pull_len = 0 })
unfolding diff
diff-prefix a b = rw (first_divergence-prefix a b, diff) (rw (length-append a b))

abbrev pub get_or_seq : Option (ℕ × Bytes) → ℕ → ℕ
get_or_seq none n = n
get_or_seq (some x) n = x.0

pub get_or-some : (d : Digest) (i : ℕ) (x y : ℕ × Bytes) → get_elem? d i ≡ some x → get_or d i y ≡ x
get_or-some [] i x y e = cc
get_or-some (z ∷ d) zero x y e = cc
get_or-some (z ∷ d) (suc i) x y e = get_or-some d i x y e

pub diff-diverged :
    (a b : Digest) (i : ℕ)
    → first_divergence a b ≡ some i
    → (diff a b).pull_from ≡ (get_or a i (0, [])).0
unfolding diff
diff-diverged a b i e = rw (e, diff)
