-- ===== src/Prelude/Bytes.antt =====
-- Byte strings: a byte is a number below 256, and `[u8; n]` is a list with a length hypothesis.
-- `to_le_bytes`, `to_be_bytes`, `from_le_bytes` of Rust's unsigned integers, at every width.
use open_bebop.Prelude.Lists.{length, length-append, All}
use open_bebop.Prelude.Equality.{Eq, nat_eq, ◌≟◌}
use Prim.Native.Nat.{ℕ, zero, suc, ◌+◌, ◌*◌, ◌/◌, ◌%◌, ◌^◌, ◌<◌}
use mathlib.Core.Path.{◌≡◌, refl, sym, ap, ap₂, ◌∙◌}
use mathlib.Core.Logic.{◌↔◌}
use mathlib.Core.Bool.{Bool, true, false, ◌&&◌}
use mathlib.Core.List.{List, [], ◌∷◌, reverse, reverse-reverse, reverse-cons}
use native.Mathlib.Omega.{arith}
use native.Mathlib.Nat.{pow-suc}

abbrev pub Bytes : Type 0
Bytes = List ℕ

abbrev pub IsByte : ℕ → Type 0
IsByte b = b < 256

-- The values of the machine integers.
abbrev pub IsU32 : ℕ → Type 0
IsU32 n = n < 2 ^ 32

abbrev pub IsU64 : ℕ → Type 0
IsU64 n = n < 2 ^ 64

-- `[u8; n]`.
abbrev pub IsArray : ℕ → Bytes → Type 0
IsArray n bs = (length bs ≡ n) × All IsByte bs

unfoldable pub bytes_beq : Bytes → Bytes → Bool
bytes_beq [] [] = true
bytes_beq [] (y ∷ ys) = false
bytes_beq (x ∷ xs) [] = false
bytes_beq (x ∷ xs) (y ∷ ys) = x ≟ y && bytes_beq xs ys

bytes_beq→eq : (xs ys : Bytes) → bytes_beq xs ys ≡ true → xs ≡ ys
unfolding bytes_beq
bytes_beq→eq [] [] h = refl
bytes_beq→eq [] (y ∷ ys) h = cc
bytes_beq→eq (x ∷ xs) [] h = cc
bytes_beq→eq (x ∷ xs) (y ∷ ys) h = ground (arith, bytes_beq→eq xs ys)

bytes_beq_refl : (xs : Bytes) → bytes_beq xs xs ≡ true
unfolding bytes_beq
bytes_beq_refl [] = refl
bytes_beq_refl (x ∷ xs) = ground (arith, bytes_beq_refl xs)

pub bytes_beq_iff : (xs ys : Bytes) → (bytes_beq xs ys ≡ true) ↔ (xs ≡ ys)
bytes_beq_iff xs ys = (bytes_beq→eq xs ys, λ p. rw p (bytes_beq_refl ys))

instance abbrev pub bytes_eq : Eq Bytes
bytes_eq = record { beq = bytes_beq; beq_iff = bytes_beq_iff }

length-reverse {ℓ} : {A : Type ℓ} (xs : List A) → length (reverse xs) ≡ length xs
length-reverse [] = refl
length-reverse (x ∷ xs) =
    omega
      (arith, ap length (reverse-cons x xs), length-append (reverse xs) (x ∷ []), length-reverse xs)

-- The low `w` bytes of `n`, least significant first.
unfoldable pub le_bytes : ℕ → ℕ → Bytes
le_bytes zero n = []
le_bytes (suc w) n = (n % 256) ∷ le_bytes w (n / 256)

unfoldable pub of_le_bytes : Bytes → ℕ
of_le_bytes [] = 0
of_le_bytes (b ∷ bs) = b + 256 * of_le_bytes bs

unfoldable pub be_bytes : ℕ → ℕ → Bytes
unfolding le_bytes
be_bytes w n = reverse (le_bytes w n)

pub length-le_bytes : (w n : ℕ) → length (le_bytes w n) ≡ w
unfolding le_bytes
length-le_bytes zero n = refl
length-le_bytes (suc w) n = ap suc (length-le_bytes w (n / 256))

pub length-be_bytes : (w n : ℕ) → length (be_bytes w n) ≡ w
unfolding be_bytes
length-be_bytes w n = length-reverse (le_bytes w n) ∙ length-le_bytes w n

pub All-le_bytes : (w n : ℕ) → All IsByte (le_bytes w n)
unfolding le_bytes
All-le_bytes zero n = tt
All-le_bytes (suc w) n = (omega arith, All-le_bytes w (n / 256))

pub le_bytes-IsArray : (w n : ℕ) → IsArray w (le_bytes w n)
le_bytes-IsArray w n = (length-le_bytes w n, All-le_bytes w n)

div_lt_of_lt : (n k : ℕ) → n < 256 * k → n / 256 < k
div_lt_of_lt n k h = omega arith

-- Decoding the encoding of a value that fits gives the value back.
pub of_le_bytes-le_bytes : (w n : ℕ) → n < 256 ^ w → of_le_bytes (le_bytes w n) ≡ n
unfolding le_bytes of_le_bytes
of_le_bytes-le_bytes zero n h = omega arith
of_le_bytes-le_bytes (suc w) n h = omega (
  arith,
  of_le_bytes-le_bytes w (n / 256) (
      div_lt_of_lt n (256 ^ w)
        (let e : 256 ^ suc w ≡ 256 * 256 ^ w = grind (arith, pow-suc) in rw e at h)),
)

-- Encoding the value of `w` bytes gives those bytes back.
pub le_bytes-of_le_bytes : (w : ℕ) (bs : Bytes) → IsArray w bs → le_bytes w (of_le_bytes bs) ≡ bs
unfolding le_bytes of_le_bytes
le_bytes-of_le_bytes zero [] h = refl
le_bytes-of_le_bytes zero (b ∷ bs) h = absurd (omega arith)
le_bytes-of_le_bytes (suc w) [] h = absurd (omega arith)
le_bytes-of_le_bytes (suc w) (b ∷ bs) h =
    let b_back : (b + 256 * of_le_bytes bs) % 256 ≡ b = omega arith in
    let rest : (b + 256 * of_le_bytes bs) / 256 ≡ of_le_bytes bs = omega arith in
    ap₂ ◌∷◌ b_back (rw rest (le_bytes-of_le_bytes w bs (omega arith, h.1.1)))

pub of_le_bytes-lt : (w : ℕ) (bs : Bytes) → IsArray w bs → of_le_bytes bs < 256 ^ w
unfolding of_le_bytes
of_le_bytes-lt zero [] h = omega arith
of_le_bytes-lt zero (b ∷ bs) h = absurd (omega arith)
of_le_bytes-lt (suc w) [] h = absurd (omega arith)
of_le_bytes-lt (suc w) (b ∷ bs) h =
    let e : 256 ^ suc w ≡ 256 * 256 ^ w = grind (arith, pow-suc) in
    rw e (omega (arith, of_le_bytes-lt w bs (omega arith, h.1.1)))

pub le_bytes-injective :
    (w m n : ℕ) → m < 256 ^ w → n < 256 ^ w → le_bytes w m ≡ le_bytes w n → m ≡ n
le_bytes-injective w m n hm hn e =
    sym (of_le_bytes-le_bytes w m hm) ∙ ap of_le_bytes e ∙ of_le_bytes-le_bytes w n hn

pub be_bytes-injective :
    (w m n : ℕ) → m < 256 ^ w → n < 256 ^ w → be_bytes w m ≡ be_bytes w n → m ≡ n
unfolding be_bytes
be_bytes-injective w m n hm hn e =
    le_bytes-injective w m n hm hn (sym (reverse-reverse _) ∙ ap reverse e ∙ reverse-reverse _)
