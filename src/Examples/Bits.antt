-- ===== src/Examples/Bits.antt =====
-- A bit vector as a list of bits, with the laws that the packing of indices asks of it.
use post_rs.Base.{
  ℕ, zero, suc, ◌+◌, ◌*◌, ◌/◌, ◌%◌, ◌<◌, ◌≤◌, ◌≡◌, refl, ap, ◌∙◌, arith, List, [], ◌∷◌, ◌++◌, Bool,
  true, false, ◌==◌, ◌-◌, min,
}
use post_rs.Base.{length, take, drop, chunks_exact, length-take, length-drop, take-append-drop}
use post_rs.Base.{chunks_exact_more, chunks_exact_end}
use post_rs.Compression.Bits.{bits_of, bit, from_bits, byte_bits, length-bits_of}
use post_rs.Compression.Interface.{BitVec, BitVecLaws}
use mathlib.Core.Path.{ap₂}

abbrev pack : ℕ → List Bool → List ℕ
pack zero bits = []
pack (suc fuel) [] = []
pack (suc fuel) (b ∷ bits) = from_bits (take 8 (b ∷ bits)) ∷ pack fuel (drop 8 (b ∷ bits))

abbrev pub bitvec : BitVec
bitvec = record {
  Bv = List Bool;
  new = [];
  extend_from_bitslice = λ bv s. bv ++ s;
  as_raw_slice = λ bv. pack (length bv) bv;
  view_bits = byte_bits;
  chunks_exact = chunks_exact;
  load_le = from_bits;
}

low_bit : (b : Bool) (n : ℕ) → ((bit b + 2 * n) % 2 == 1) ≡ b
low_bit true n = ground arith
low_bit false n = ground arith

high_bits : (b : Bool) (n : ℕ) → (bit b + 2 * n) / 2 ≡ n
high_bits true n = omega arith
high_bits false n = omega arith

take-bits_of-from_bits :
    (k : ℕ) (xs : List Bool) → length xs ≤ k → take (length xs) (bits_of k (from_bits xs)) ≡ xs
take-bits_of-from_bits k [] h = refl
take-bits_of-from_bits zero (b ∷ xs) h = absurd (omega arith)
take-bits_of-from_bits (suc k) (b ∷ xs) h = ap₂ ◌∷◌ (low_bit b (from_bits xs)) (
    ap (λ (n : ℕ). take (length xs) (bits_of k n)) (high_bits b (from_bits xs))
    ∙ take-bits_of-from_bits k xs (omega arith))

pack-nil : (fuel : ℕ) → pack fuel [] ≡ []
pack-nil zero = refl
pack-nil (suc fuel) = refl

take-append : (n : ℕ) (xs ys : List Bool) → take n (xs ++ ys) ≡ take n xs ++ take (n - length xs) ys
take-append zero xs ys = let e : 0 ≡ 0 - length xs = omega arith in ap (λ (k : ℕ). take k ys) e
take-append (suc n) [] ys = let e : suc n ≡ suc n - 0 = omega arith in ap (λ (k : ℕ). take k ys) e
take-append (suc n) (x ∷ xs) ys =
    let e : n - length xs ≡ suc n - suc (length xs) = omega arith in
    ap (◌∷◌ x) (take-append n xs ys) ∙ ap (λ (k : ℕ). x ∷ (take n xs ++ take k ys)) e

take-min : (n : ℕ) (xs : List Bool) → take n xs ≡ take (min n (length xs)) xs
take-min zero xs = let e : 0 ≡ min 0 (length xs) = omega arith in ap (λ (k : ℕ). take k xs) e
take-min (suc n) [] =
    let e : 0 ≡ min (suc n) 0 = omega arith in ap (λ (k : ℕ). take {A = Bool} k []) e
take-min (suc n) (x ∷ xs) =
    let e : suc (min n (length xs)) ≡ min (suc n) (suc (length xs)) = omega arith in
    ap (◌∷◌ x) (take-min n xs) ∙ ap (λ (k : ℕ). take k (x ∷ xs)) e

first_byte : (xs : List Bool) → take (length xs) (bits_of 8 (from_bits (take 8 xs))) ≡ take 8 xs
first_byte xs =
    let c = take 8 xs in
    let size : length c ≡ min 8 (length xs) = length-take 8 xs in
    let eight = length-bits_of 8 (from_bits c) in
    let same : min (length xs) (length (bits_of 8 (from_bits c))) ≡ length c = omega arith in
    take-min (length xs) (bits_of 8 (from_bits c))
    ∙ ap (λ (k : ℕ). take k (bits_of 8 (from_bits c))) same
    ∙ take-bits_of-from_bits 8 c (omega arith)

take-pack :
    (fuel : ℕ) (bits : List Bool)
    → length bits ≤ fuel
    → take (length bits) (byte_bits (pack fuel bits)) ≡ bits
take-pack zero [] h = refl
take-pack zero (b ∷ bits) h = absurd (omega arith)
take-pack (suc fuel) [] h = refl
take-pack (suc fuel) (b ∷ bits) h =
    let xs : List Bool = b ∷ bits in
    let rest = pack fuel (drop 8 xs) in
    let size : length xs - length (bits_of 8 (from_bits (take 8 xs))) ≡ length (drop 8 xs) =
      omega (arith, length-drop 8 xs) in
    take-append (length xs) (bits_of 8 (from_bits (take 8 xs))) (byte_bits rest)
    ∙ ap₂ ◌++◌ (first_byte xs) (
        ap (λ (k : ℕ). take k (byte_bits rest)) size
        ∙ take-pack fuel (drop 8 xs) (omega (arith, length-drop 8 xs)))
    ∙ take-append-drop 8 xs

length-pack :
    (fuel : ℕ) (bits : List Bool)
    → length bits ≤ fuel
    → (length bits ≤ 8 * length (pack fuel bits)) × (8 * length (pack fuel bits) < length bits + 8)
length-pack zero [] h = omega arith
length-pack zero (b ∷ bits) h = absurd (omega arith)
length-pack (suc fuel) [] h = omega arith
length-pack (suc fuel) (b ∷ bits) h =
    let size = length-drop 8 (b ∷ bits) in
    let (lo, hi) = length-pack fuel (drop 8 (b ∷ bits)) (omega (arith, size)) in
    (omega (arith, size, lo), omega (arith, size, hi))

pub bitvec_laws : BitVecLaws bitvec
bitvec_laws = record {
  bits = λ bv. bv;
  bits-new = refl;
  bits-extend_from_bitslice = λ bv s. refl;
  view_bits_lem = λ bytes. refl;
  take-as_raw_slice = λ bv. take-pack (length bv) bv (omega arith);
  length-as_raw_slice = λ bv. length-pack (length bv) bv (omega arith);
  chunks_exact_more = chunks_exact_more;
  chunks_exact_end = chunks_exact_end;
  load_le_lem = λ s pos h. refl;
}
