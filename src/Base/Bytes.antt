-- ===== src/Base/Bytes.antt =====
-- Byte arrays as lists of numbers below 256: `to_le_bytes`, `to_be_bytes`, their readers, and
-- the order of arrays and slices of bytes, which is lexicographic.
use post_rs.Base.Tests.{ltb, ◌==◌, if◌then◌else◌}
use post_rs.Base.Lists.{length, All}
use Prim.Native.Nat.{ℕ, zero, suc, ◌+◌, ◌*◌, ◌/◌, ◌%◌, ◌^◌, ◌<◌}
use mathlib.Core.Path.{◌≡◌, refl, ap, ap₂}
use mathlib.Core.Bool.{Bool, true, false}
use mathlib.Core.List.{List, [], ◌∷◌}
use native.Mathlib.Omega.{arith}
use native.Mathlib.Nat.{pow-suc, one-le-pow}

abbrev pub IsByte : ℕ → Type 0
IsByte b = b < 256

abbrev pub IsBytes : ℕ → List ℕ → Type 0
IsBytes n bs = (length bs ≡ n) × All IsByte bs

-- The low `k` bytes of a number, lowest first.
abbrev pub to_le_bytes : ℕ → ℕ → List ℕ
to_le_bytes zero n = []
to_le_bytes (suc k) n = (n % 256) ∷ to_le_bytes k (n / 256)

abbrev pub from_le_bytes : List ℕ → ℕ
from_le_bytes [] = 0
from_le_bytes (b ∷ bs) = b + 256 * from_le_bytes bs

-- The number that a big-endian array stands for.
abbrev pub be_value : List ℕ → ℕ
be_value [] = 0
be_value (b ∷ bs) = b * 256 ^ length bs + be_value bs

-- `a < b` of Rust's slices and arrays of bytes.
abbrev pub lex_lt : List ℕ → List ℕ → Bool
lex_lt [] [] = false
lex_lt [] (y ∷ ys) = true
lex_lt (x ∷ xs) [] = false
lex_lt (x ∷ xs) (y ∷ ys) = if ltb x y then true else if ltb y x then false else lex_lt xs ys

pub length-to_le_bytes : (k n : ℕ) → length (to_le_bytes k n) ≡ k
length-to_le_bytes zero n = refl
length-to_le_bytes (suc k) n = ap suc (length-to_le_bytes k (n / 256))

pub to_le_bytes-IsBytes : (k n : ℕ) → IsBytes k (to_le_bytes k n)
to_le_bytes-IsBytes k n = (length-to_le_bytes k n, bytes k n)
  where
    bytes : (k n : ℕ) → All IsByte (to_le_bytes k n)
    bytes zero n = tt
    bytes (suc k) n = (omega arith, bytes k (n / 256))

pub be_value-lt : (bs : List ℕ) → All IsByte bs → be_value bs < 256 ^ length bs
be_value-lt [] h = omega arith
be_value-lt (b ∷ bs) (hb, h) =
    grind (arith, be_value-lt bs h, pow-suc 256 (length bs), one-le-pow (length bs) 256)

be_step_lt : (x y a b p : ℕ) → x < y → a < p → x * p + a < y * p + b
be_step_lt x y a b p h ha = grind arith

-- Arrays of one length are ordered as the numbers that they stand for.
pub lex_lt-be_value :
    (xs ys : List ℕ)
    → length xs ≡ length ys
    → All IsByte xs
    → All IsByte ys
    → lex_lt xs ys ≡ ltb (be_value xs) (be_value ys)
lex_lt-be_value [] [] e hx hy = ground arith
lex_lt-be_value [] (y ∷ ys) e hx hy = absurd (omega arith)
lex_lt-be_value (x ∷ xs) [] e hx hy = absurd (omega arith)
lex_lt-be_value (x ∷ xs) (y ∷ ys) e (hx, hxs) (hy, hys) =
    let e' : length xs ≡ length ys = omega arith in
    ground (
      arith,
      lex_lt-be_value xs ys e' hxs hys,
      ap (λ (n : ℕ). 256 ^ n) e',
      be_value-lt xs hxs,
      be_value-lt ys hys,
      be_step_lt x y (be_value xs) (be_value ys) (256 ^ length xs),
      be_step_lt y x (be_value ys) (be_value xs) (256 ^ length xs),
    )

-- `==` of slices.
abbrev pub eq_bytes : List ℕ → List ℕ → Bool
eq_bytes [] [] = true
eq_bytes [] (y ∷ ys) = false
eq_bytes (x ∷ xs) [] = false
eq_bytes (x ∷ xs) (y ∷ ys) = if x == y then eq_bytes xs ys else false

pub eq_bytes_sound : (xs ys : List ℕ) → eq_bytes xs ys ≡ true → xs ≡ ys
eq_bytes_sound [] [] e = refl
eq_bytes_sound [] (y ∷ ys) e = absurd (cc e)
eq_bytes_sound (x ∷ xs) [] e = absurd (cc e)
eq_bytes_sound (x ∷ xs) (y ∷ ys) e =
    let head : x ≡ y = ground arith in
    let tail : eq_bytes xs ys ≡ true = ground arith in ap₂ ◌∷◌ head (eq_bytes_sound xs ys tail)

pub eq_bytes_refl : (xs : List ℕ) → eq_bytes xs xs ≡ true
eq_bytes_refl [] = refl
eq_bytes_refl (x ∷ xs) = ground (arith, eq_bytes_refl xs)
