-- ===== src/Compression/Required.antt =====
-- `required_bits`, the width of an index.
use post_rs.Base.{ℕ, zero, suc, ◌^◌, ◌≤◌, ◌<◌, ◌↔◌, arith}
use post_rs.Base.Words.{IsU64, ilog2_bounds}
use post_rs.Compression.Interface.{BitVec}
use post_rs.Base.{◌≡◌, List, none, refl}
use post_rs.Compression.{decompress_indexes, required_bits}
use native.Mathlib.Nat.{pow-le-pow_right, one-le-pow}

required_bits_between : (n k w : ℕ) → 2 ^ w ≤ n → n < 2 ^ suc w → (n < 2 ^ k) ↔ (suc w ≤ k)
required_bits_between n k w lo hi = (
  λ p. ground (arith, pow-le-pow_right {n = 2} (omega arith) {i = k} {j = w}),
  λ p. omega (arith, pow-le-pow_right {n = 2} (omega arith) {i = suc w} {j = k} p),
)

-- A 64-bit value fits in `k` bits exactly when `k` is at least `required_bits` of it, which
-- therefore is the least such width.
pub required_bits-le_iff : (value k : ℕ) → IsU64 value → (required_bits value ≤ k) ↔ (value < 2 ^ k)
unfolding required_bits
required_bits-le_iff zero k h = (λ p. omega (arith, one-le-pow k 2 (omega arith)), λ p. omega arith)
required_bits-le_iff (suc n) k h =
    let (w, e, lo, hi, fits) = ilog2_bounds (suc n) (omega arith) h in
    let both = required_bits_between (suc n) k w lo hi in
    (λ p. both.1 (ground arith), λ p. ground (arith, both.0 p))

pub required_bits-zero : required_bits 0 ≡ 0
unfolding required_bits
required_bits-zero = refl

pub decompress_indexes-no_bits :
    (bitvec : BitVec) (indexes : List ℕ) → decompress_indexes bitvec indexes 0 ≡ none
unfolding decompress_indexes
decompress_indexes-no_bits bitvec indexes = refl
