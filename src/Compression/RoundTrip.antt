-- ===== src/Compression/RoundTrip.antt =====
-- Packing and unpacking of indices: `compress_indices`, `decompress_indexes`.
use post_rs.Base.{ℕ, ◌+◌, ◌*◌, ◌^◌, ◌≤◌, ◌<◌, ◌≡◌, refl, sym, ap, ◌∙◌, arith}
use post_rs.Base.{Bool, some, List, [], ◌∷◌, ◌++◌, map}
use post_rs.Base.{length, take, drop, All}
use post_rs.Base.{length-append, take-append-drop}
use post_rs.Base.Bytes.{to_le_bytes}
use post_rs.Compression.{slice_to, compress_loop, compress_indices, decompress_indexes}
use post_rs.Compression.Bits.{bits_of, byte_bits, length-bits_of, from_bits-bits_of}
use post_rs.Compression.Bits.{take-bits_of, byte_bits-to_le_bytes}
use post_rs.Compression.Interface.{BitVec, BitVecLaws}
use mathlib.Core.Path.{ap₂}
use mathlib.Core.List.{append_assoc, append-nil}

-- All packed bits, in order.
abbrev packed : ℕ → List ℕ → List Bool
packed k [] = []
packed k (i ∷ is) = bits_of k i ++ packed k is

length-packed : (k : ℕ) (is : List ℕ) → length (packed k is) ≡ length is * k
length-packed k [] = omega arith
length-packed k (i ∷ is) =
    grind (arith, length-append (bits_of k i) (packed k is), length-bits_of k i, length-packed k is)

module _ (bitvec : BitVec) (laws : BitVecLaws bitvec) where
  open bitvec use {Bv, new, extend_from_bitslice, as_raw_slice, view_bits, chunks_exact, load_le}
  open laws use {bits}

  slice_to-view_bits :
      (i k : ℕ) → k ≤ 64 → slice_to (view_bits (to_le_bytes 8 i)) k ≡ some (bits_of k i)
  slice_to-view_bits i k h =
      rw (laws.view_bits_lem (to_le_bytes 8 i), byte_bits-to_le_bytes i) ground
        (arith, length-bits_of 64 i, take-bits_of k 64 i h)

  compress_loop-packed :
      (bv : Bv) (is : List ℕ) (k : ℕ)
      → k ≤ 64
      → (bv' : Bv) × (compress_loop bitvec bv is k ≡ some bv') × (bits bv' ≡ bits bv ++ packed k is)
  unfolding compress_loop
  compress_loop-packed bv [] k h = (bv, refl, sym (append-nil (bits bv)))
  compress_loop-packed bv (i ∷ is) k h =
      let (bv', e, b) = compress_loop-packed (extend_from_bitslice bv (bits_of k i)) is k h in
      (
        bv',
        rw (slice_to-view_bits i k h, compress_loop) e,
        b
            ∙ rw (laws.bits-extend_from_bitslice bv (bits_of k i))
                (append_assoc (bits bv) (bits_of k i) (packed k is)),
      )

  chunks_exact-packed :
      (k : ℕ) (is : List ℕ) (rest : List Bool)
      → 0 < k
      → chunks_exact k (packed k is ++ rest) ≡ map (bits_of k) is ++ chunks_exact k rest
  chunks_exact-packed k [] rest h = refl
  chunks_exact-packed k (i ∷ is) rest h = rw (append_assoc (bits_of k i) (packed k is) rest) (
      laws.chunks_exact_more k (bits_of k i) (packed k is ++ rest) h (length-bits_of k i)
      ∙ ap (◌∷◌ (bits_of k i)) (chunks_exact-packed k is rest h))

  loads :
      (k : ℕ) (is : List ℕ) (rest : List (List Bool))
      → 0 < k
      → k ≤ 64
      → All (λ i. i < 2 ^ k) is
      → take (length is) (map load_le (map (bits_of k) is ++ rest)) ≡ is
  loads k [] rest h0 h fits = refl
  loads k (i ∷ is) rest h0 h (hi, his) =
      let one : load_le (bits_of k i) ≡ i =
        laws.load_le_lem (bits_of k i) (rw (length-bits_of k i) h0) (rw (length-bits_of k i) h)
        ∙ from_bits-bits_of k i hi in
      ap₂ ◌∷◌ one (loads k is rest h0 h his)

  -- The bytes of a vector that holds the packed indices are their bits and some padding.
  view_bits-packed :
      (bv : Bv) (k : ℕ) (is : List ℕ)
      → bits bv ≡ packed k is
      → view_bits (as_raw_slice bv)
        ≡ packed k is ++ drop (length (bits bv)) (byte_bits (as_raw_slice bv))
  view_bits-packed bv k is e =
      laws.view_bits_lem (as_raw_slice bv)
      ∙ sym (take-append-drop (length (bits bv)) (byte_bits (as_raw_slice bv)))
      ∙ ap (λ t. t ++ drop (length (bits bv)) (byte_bits (as_raw_slice bv)))
          (laws.take-as_raw_slice bv ∙ e)

  -- The packed bytes hold the bits of the indices, and fewer than eight bits of padding.
  pub length-compress_indices :
      (is : List ℕ) (k : ℕ)
      → k ≤ 64
      → (bytes : List ℕ) × (compress_indices bitvec is k ≡ some bytes)
        × (length is * k ≤ 8 * length bytes)
        × (8 * length bytes < length is * k + 8)
  unfolding compress_indices
  length-compress_indices is k h =
      let (bv, e, b) = compress_loop-packed new is k h in
      let size : length (bits bv) ≡ length is * k =
        ap length (b ∙ ap (λ t. t ++ packed k is) laws.bits-new) ∙ length-packed k is in
      (
        as_raw_slice bv,
        rw (e, compress_indices),
        grind (arith, laws.length-as_raw_slice bv, size),
        grind (arith, laws.length-as_raw_slice bv, size),
      )

  -- Indices of at least one and at most 64 bits that fit in so many bits are packed without a
  -- panic, and the first of the unpacked numbers, as many as there were indices, are the indices.
  pub decompress-compress :
      (is : List ℕ) (k : ℕ)
      → 0 < k
      → k ≤ 64
      → All (λ i. i < 2 ^ k) is
      → (bytes unpacked : List ℕ) × (compress_indices bitvec is k ≡ some bytes)
        × (decompress_indexes bitvec bytes k ≡ some unpacked)
        × (take (length is) unpacked ≡ is)
  unfolding compress_indices decompress_indexes
  decompress-compress is k h0 h fits =
      let (bv, e, b) = compress_loop-packed new is k h in
      let tail : List Bool = drop (length (bits bv)) (byte_bits (as_raw_slice bv)) in
      let seen : view_bits (as_raw_slice bv) ≡ packed k is ++ tail =
        view_bits-packed bv k is (b ∙ ap (λ t. t ++ packed k is) laws.bits-new) in
      (
        as_raw_slice bv,
        map load_le (chunks_exact k (view_bits (as_raw_slice bv))),
        rw (e, compress_indices),
        ground arith,
        rw (seen, chunks_exact-packed k is tail h0) (loads k is (chunks_exact k tail) h0 h fits),
      )
