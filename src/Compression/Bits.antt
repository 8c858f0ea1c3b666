-- ===== src/Compression/Bits.antt =====
-- The bits of numbers and bytes, lowest first, as `bitvec` orders them under `Lsb0`.
use post_rs.Base.{ℕ, zero, suc, ◌+◌, ◌*◌, ◌/◌, ◌%◌, ◌^◌, ◌≤◌, ◌<◌, ◌≡◌, refl, ap, arith}
use post_rs.Base.{Bool, true, false, List, [], ◌∷◌, ◌++◌, take, length, ◌==◌}
use post_rs.Base.Bytes.{to_le_bytes}
use native.Mathlib.Nat.{pow-suc}

abbrev pub bits_of : ℕ → ℕ → List Bool
bits_of zero n = []
bits_of (suc k) n = (n % 2 == 1) ∷ bits_of k (n / 2)

abbrev pub bit : Bool → ℕ
bit true = 1
bit false = 0

abbrev pub from_bits : List Bool → ℕ
from_bits [] = 0
from_bits (b ∷ bs) = bit b + 2 * from_bits bs

abbrev pub byte_bits : List ℕ → List Bool
byte_bits [] = []
byte_bits (b ∷ bs) = bits_of 8 b ++ byte_bits bs

pub length-bits_of : (k n : ℕ) → length (bits_of k n) ≡ k
length-bits_of zero n = refl
length-bits_of (suc k) n = ap suc (length-bits_of k (n / 2))

pub from_bits-bits_of : (k n : ℕ) → n < 2 ^ k → from_bits (bits_of k n) ≡ n
from_bits-bits_of zero n h = omega arith
from_bits-bits_of (suc k) n h = ground (arith, pow-suc 2 k, from_bits-bits_of k (n / 2))

pub take-bits_of : (k m n : ℕ) → k ≤ m → take k (bits_of m n) ≡ bits_of k n
take-bits_of zero m n h = refl
take-bits_of (suc k) zero n h = absurd (omega arith)
take-bits_of (suc k) (suc m) n h = ap (◌∷◌ (n % 2 == 1)) (take-bits_of k m (n / 2) (omega arith))

bits_of_byte :
    (m n : ℕ)
    → bits_of 8 (n % 256) ++ bits_of m (n / 256)
      ≡ bits_of (suc (suc (suc (suc (suc (suc (suc (suc m)))))))) n
bits_of_byte m n = ground arith

abbrev eight_times : ℕ → ℕ
eight_times zero = zero
eight_times (suc k) = suc (suc (suc (suc (suc (suc (suc (suc (eight_times k))))))))

byte_bits-le : (k n : ℕ) → byte_bits (to_le_bytes k n) ≡ bits_of (eight_times k) n
byte_bits-le zero n = refl
byte_bits-le (suc k) n = rw (byte_bits-le k (n / 256)) (bits_of_byte (eight_times k) n)

-- The bits of the little-endian bytes of a u64 are the bits of the number.
pub byte_bits-to_le_bytes : (n : ℕ) → byte_bits (to_le_bytes 8 n) ≡ bits_of 64 n
byte_bits-to_le_bytes n = byte_bits-le 8 n
