-- ===== src/Prelude/Slices.antt =====
-- `b[o..o + n]` of Rust, and how the parts of a text are read back by it.
use Prim.Native.Nat.{ℕ, zero, suc, ◌+◌, ◌≤◌, ◌<◌}
use mathlib.Core.Path.{◌≡◌, refl, ap, ◌∙◌}
use mathlib.Core.List.{List, [], ◌∷◌, ◌++◌}
use native.Mathlib.Omega.{arith}
use open_bebop.Prelude.Lists.{
  length, take, drop, get_or, All, drop-add, drop-append, take-append, take-append-drop,
  length-take, length-drop, take-ge,
}

module _ {A : Type 0} where
  -- The tests before an index keep it in range.
  unfoldable pub slice : ℕ → ℕ → List A → List A
  slice o n b = take n (drop o b)

  pub drop-next : (b a r : List A) (o n : ℕ) → drop o b ≡ a ++ r → length a ≡ n → drop (o + n) b ≡ r
  drop-next b a r o n e l = drop-add o n b ∙ ap (drop n) e ∙ drop-append n a r l

  pub slice-next : (b a r : List A) (o n : ℕ) → drop o b ≡ a ++ r → length a ≡ n → slice o n b ≡ a
  unfolding slice
  slice-next b a r o n e l = ap (take n) e ∙ take-append n a r l

  pub slice-append-drop : (o n : ℕ) (b : List A) → slice o n b ++ drop (o + n) b ≡ drop o b
  unfolding slice
  slice-append-drop o n b =
      ap (◌++◌ (take n (drop o b))) (drop-add o n b) ∙ take-append-drop n (drop o b)

  pub length-slice : (o n : ℕ) (b : List A) → o + n ≤ length b → length (slice o n b) ≡ n
  unfolding slice
  length-slice o n b h = omega (arith, length-take n (drop o b), length-drop o b)

  -- The last `n` elements.
  pub slice-rest : (o n : ℕ) (b : List A) → length b ≡ o + n → slice o n b ≡ drop o b
  unfolding slice
  slice-rest o n b h = take-ge (drop o b) n (omega (arith, length-drop o b))

  pub get_or-drop :
      (b : List A) (o : ℕ) (d x : A) (r : List A) → drop o b ≡ x ∷ r → get_or b o d ≡ x
  get_or-drop [] zero d x r e = absurd (cc e)
  get_or-drop (y ∷ b) zero d x r e = ap (λ l. get_or l 0 d) e
  get_or-drop [] (suc o) d x r e = absurd (cc e)
  get_or-drop (y ∷ b) (suc o) d x r e = get_or-drop b o d x r e

  pub drop-get_or :
      (b : List A) (o : ℕ) (d : A) → o < length b → drop o b ≡ get_or b o d ∷ drop (suc o) b
  drop-get_or [] o d h = absurd (omega arith)
  drop-get_or (y ∷ b) zero d h = refl
  drop-get_or (y ∷ b) (suc o) d h = drop-get_or b o d (omega arith)

  module _ {κ} (P : A → Type κ) where
    pub All-drop : (n : ℕ) (xs : List A) → All P xs → All P (drop n xs)
    All-drop zero xs h = h
    All-drop (suc n) [] h = h
    All-drop (suc n) (x ∷ xs) h = All-drop n xs h.1

    pub All-take : (n : ℕ) (xs : List A) → All P xs → All P (take n xs)
    All-take zero xs h = tt
    All-take (suc n) [] h = tt
    All-take (suc n) (x ∷ xs) h = (h.0, All-take n xs h.1)

    pub All-slice : (o n : ℕ) (b : List A) → All P b → All P (slice o n b)
    unfolding slice
    All-slice o n b h = All-take n (drop o b) (All-drop o b h)
