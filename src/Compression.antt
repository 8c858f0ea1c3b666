-- ===== src/Compression.antt =====
-- src/compression.rs: indices packed into `keep_bits` bits each, lowest bit first.
-- Bit vectors come from the crate `bitvec`; they are an interface here.
pub mod Bits
pub mod Interface
pub mod RoundTrip
pub mod Required
pub mod Unpacked
use post_rs.Base.{ℕ, zero, suc, ◌+◌, ◌≤◌, Bool, Option, none, some, List, [], ◌∷◌, map}
use post_rs.Base.{length, take, leb, ltb, ◌==◌, not, ◌&&◌, ◌||◌, if◌then◌else◌}
use post_rs.Base.Bytes.{to_le_bytes}
use post_rs.Base.Words.{ilog2}
use Interface.{BitVec}

-- `xs[..n]`; `none` is the panic on a range that ends past the slice.
abbrev pub slice_to {ℓ} : {A : Type ℓ} → List A → ℕ → Option (List A)
slice_to xs n = if leb n (length xs) then some (take n xs) else none

module _ (bitvec : BitVec) where
  open bitvec use {Bv, new, extend_from_bitslice, as_raw_slice, view_bits, chunks_exact, load_le}

  unfoldable pub compress_loop : Bv → List ℕ → ℕ → Option Bv
  compress_loop bv [] keep_bits = some bv
  compress_loop bv (index ∷ indexes) keep_bits =
      elim (slice_to (view_bits (to_le_bytes 8 index)) keep_bits) [
        | none ↦ none
        | some bits ↦ compress_loop (extend_from_bitslice bv bits) indexes keep_bits
      ]

  -- `none` is a panic: `keep_bits` is above the 64 bits of an index.
  unfoldable pub compress_indices : List ℕ → ℕ → Option (List ℕ)
  compress_indices indexes keep_bits = elim (compress_loop new indexes keep_bits) [
    | none ↦ none
    | some bv ↦ some (as_raw_slice bv)
  ]

  -- The numbers that the iterator gives. `none` is a panic: of chunks of no bits, or of a load of more
  -- than 64 bits into a u64, where there is a chunk to load.
  pub decompress_indexes : List ℕ → ℕ → Option (List ℕ)
  decompress_indexes indexes bits =
      let chunks = chunks_exact bits (view_bits indexes) in
      if bits == 0 || (ltb 64 bits && not (length chunks == 0))
      then none
      else some (map load_le chunks)

unfoldable pub required_bits : ℕ → ℕ
required_bits value = if value == 0 then 0 else elim (ilog2 value) [ none ↦ 0 | some k ↦ k + 1 ]
