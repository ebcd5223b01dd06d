-- ===== src/ProtoWire/TransportPolicy/Laws.antt =====
-- A token bucket of bebop2/proto-wire/src/transport_policy.rs over time.
use native.Mathlib.Nat.{add-mul}
use open_bebop.Prelude.{
  ℕ, ◌+◌, ◌-◌, ◌*◌, ◌%◌, ◌^◌, ◌≤◌, ◌≡◌, refl, sym, ap, ◌∙◌, true, false, ◌==◌, if◌then◌else◌, List,
  [], ◌∷◌, arith, Bool-cases, inl, inr,
}
use open_bebop.ProtoWire.TransportPolicy.{TokenBucket, refilled, try_acquire}

-- The number of calls at the given times that get a token.
unfoldable pub granted : TokenBucket → List ℕ → ℕ
granted b [] = 0
granted b (now ∷ times) =
    let rest = granted (try_acquire now b).1 times in
    if (try_acquire now b).0 then rest + 1 else rest

-- Times that do not go back, between two bounds.
abbrev pub Ascending : ℕ → List ℕ → ℕ → Type 0
Ascending low [] high = low ≤ high
Ascending low (now ∷ times) high = (low ≤ now) × Ascending now times high

Ascending-from :
    (low mid high : ℕ) (times : List ℕ)
    → low ≤ mid
    → Ascending mid times high
    → Ascending low times high
Ascending-from low mid high [] h a = omega arith
Ascending-from low mid high (now ∷ times) h (p, a) = (omega arith, a)

Ascending-bound : (low high : ℕ) (times : List ℕ) → Ascending low times high → low ≤ high
Ascending-bound low high [] a = a
Ascending-bound low high (now ∷ times) (p, a) =
    let q = Ascending-bound now high times a in omega arith

refilled_le :
    (now : ℕ) (b : TokenBucket) → refilled now b ≤ b.tokens + (now - b.last) * b.refill_per_sec
unfolding refilled
refilled_le now b = omega arith

try_empty :
    (now : ℕ) (b : TokenBucket) → (refilled now b == 0) ≡ true → try_acquire now b ≡ (false, b)
unfolding try_acquire
try_empty now b h = rw h refl

try_granted :
    (now : ℕ) (b : TokenBucket)
    → (refilled now b == 0) ≡ false
    → try_acquire now b ≡ (true, record b { tokens = (refilled now b - 1) % 2 ^ 32; last = now })
unfolding try_acquire
try_granted now b h = rw h refl

split_time :
    (low now high rate : ℕ)
    → low ≤ now
    → now ≤ high
    → (now - low) * rate + (high - now) * rate ≡ (high - low) * rate
split_time low now high rate p q =
    let whole : now - low + (high - now) ≡ high - low = omega arith in
    sym (add-mul (now - low) (high - now) rate) ∙ ap (λ d. d * rate) whole

-- However often it is asked, at times that do not go back and start no earlier than its last
-- grant, a bucket grants no more than the tokens in it and the refill of the time that passes.
pub granted_bounded :
    (high : ℕ) (b : TokenBucket) (times : List ℕ)
    → Ascending b.last times high
    → granted b times ≤ b.tokens + (high - b.last) * b.refill_per_sec
unfolding granted
granted_bounded high b [] a = omega arith
granted_bounded high b (now ∷ times) (p, a) = elim (Bool-cases (refilled now b == 0)) [
  | inl empty ↦
      rw (try_empty now b empty)
        (granted_bounded high b times (Ascending-from b.last now high times p a))
  | inr some_left ↦
      let b' = record b { tokens = (refilled now b - 1) % 2 ^ 32; last = now } in
      let later : granted b' times
          ≤ (refilled now b - 1) % 2 ^ 32 + (high - now) * b.refill_per_sec =
        granted_bounded high b' times a in
      let filled = refilled_le now b in
      let apart =
        split_time b.last now high b.refill_per_sec p (Ascending-bound now high times a) in
      let some : 1 ≤ refilled now b = ground arith in
      rw (try_granted now b some_left) (
        sum ((now - b.last) * b.refill_per_sec) ((high - now) * b.refill_per_sec) b.tokens later
          filled apart some)
]
  where
    sum :
        {g f z : ℕ} (x y t : ℕ)
        → g ≤ (f - 1) % 2 ^ 32 + y
        → f ≤ t + x
        → x + y ≡ z
        → 1 ≤ f
        → g + 1 ≤ t + z
    sum x y t h k e s = omega arith
