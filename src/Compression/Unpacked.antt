-- ===== src/Compression/Unpacked.antt =====
-- How many numbers unpack.
use post_rs.Base.{
  ℕ, zero, suc, ◌+◌, ◌*◌, ◌<◌, ◌≤◌, ◌≡◌, ◌∙◌, sym, ap, arith, inl, inr, some, List, [], ◌∷◌, Bool,
  map,
}
use post_rs.Base.{
  length, take, drop, length-append, length-take, length-drop, length-map, take-append-drop,
  Bool-cases, ◌==◌, ◌||◌, ltb, not, ◌&&◌,
}
use post_rs.Compression.{decompress_indexes}
use post_rs.Compression.Bits.{byte_bits, bits_of, length-bits_of}
use post_rs.Compression.Interface.{BitVec, BitVecLaws}

length-byte_bits : (bytes : List ℕ) → length (byte_bits bytes) ≡ 8 * length bytes
length-byte_bits [] = omega arith
length-byte_bits (b ∷ bytes) = omega (
  arith,
  length-append (bits_of 8 b) (byte_bits bytes),
  length-bits_of 8 b,
  length-byte_bits bytes,
)

module _ (bitvec : BitVec) (laws : BitVecLaws bitvec) where
  length-chunks_exact :
      (k n : ℕ) (bits : List Bool)
      → 0 < n
      → k * n ≤ length bits
      → k ≤ length (bitvec.chunks_exact n bits)
  length-chunks_exact zero n bits pos h = omega arith
  length-chunks_exact (suc k) n bits pos h =
      let more : suc k * n ≡ n + k * n = grind arith in
      let first : length (take n bits) ≡ n = omega (arith, length-take n bits, more, h) in
      let cut : bitvec.chunks_exact n bits ≡ take n bits ∷ bitvec.chunks_exact n (drop n bits) =
        ap (bitvec.chunks_exact n) (sym (take-append-drop n bits))
        ∙ laws.chunks_exact_more n (take n bits) (drop n bits) pos first in
      let rest =
        length-chunks_exact k n (drop n bits) pos (omega (arith, length-drop n bits, more, h)) in
      omega (arith, ap length cut, rest)

  pub length-decompress_indexes :
      (bytes unpacked : List ℕ) (bits k : ℕ)
      → decompress_indexes bitvec bytes bits ≡ some unpacked
      → k * bits ≤ 8 * length bytes
      → k ≤ length unpacked
  unfolding decompress_indexes
  length-decompress_indexes bytes unpacked bits k e h =
      let chunks = bitvec.chunks_exact bits (bitvec.view_bits bytes) in
      elim (Bool-cases (bits == 0 || (ltb 64 bits && not (length chunks == 0)))) [
        | inl panics ↦ absurd (ground (arith, panics, e))
        | inr loads ↦
            let same : map bitvec.load_le chunks ≡ unpacked = ground (arith, loads, e) in
            let pos : 0 < bits = ground (arith, loads) in
            let size : length (bitvec.view_bits bytes) ≡ 8 * length bytes =
              ap length (laws.view_bits_lem bytes) ∙ length-byte_bits bytes in
            omega (
              arith,
              sym (ap length same),
              length-map chunks bitvec.load_le,
              length-chunks_exact k bits (bitvec.view_bits bytes) pos (omega (arith, size, h)),
            )
      ]
