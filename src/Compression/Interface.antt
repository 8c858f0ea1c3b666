-- ===== src/Compression/Interface.antt =====
-- What src/compression.rs uses of the crate `bitvec`, with the documented behaviour.
use post_rs.Base.{ℕ, ◌+◌, ◌*◌, ◌≤◌, ◌<◌, ◌≡◌, Bool, List, [], ◌∷◌, ◌++◌}
use post_rs.Base.{length, take}
use post_rs.Compression.Bits.{from_bits, byte_bits}

pub record BitVec : Type 1 where
  pub Bv : Type 0
  -- `bitvec![u8, Lsb0;]`
  pub new : Bv
  pub extend_from_bitslice : Bv → List Bool → Bv
  pub as_raw_slice : Bv → List ℕ
  -- `view_bits::<Lsb0>()` and `BitSlice::<_, Lsb0>::from_slice`
  pub view_bits : List ℕ → List Bool
  pub chunks_exact : ℕ → List Bool → List (List Bool)
  pub load_le : List Bool → ℕ

-- The vector holds the bits pushed so far; its bytes hold them in order and end in fewer than
-- eight bits of padding; a view is the bits of the bytes.
pub record BitVecLaws (bitvec : BitVec) : Type 0 where
  pub bits : bitvec.Bv → List Bool
  pub bits-new : bits bitvec.new ≡ []
  pub bits-extend_from_bitslice :
      (bv : bitvec.Bv) (s : List Bool) → bits (bitvec.extend_from_bitslice bv s) ≡ bits bv ++ s
  pub view_bits_lem : (bytes : List ℕ) → bitvec.view_bits bytes ≡ byte_bits bytes
  pub take-as_raw_slice :
      (bv : bitvec.Bv) → take (length (bits bv)) (byte_bits (bitvec.as_raw_slice bv)) ≡ bits bv
  pub length-as_raw_slice :
      (bv : bitvec.Bv)
      → (length (bits bv) ≤ 8 * length (bitvec.as_raw_slice bv))
        × (8 * length (bitvec.as_raw_slice bv) < length (bits bv) + 8)
  pub chunks_exact_more :
      (n : ℕ) (c rest : List Bool)
      → 0 < n
      → length c ≡ n
      → bitvec.chunks_exact n (c ++ rest) ≡ c ∷ bitvec.chunks_exact n rest
  pub chunks_exact_end :
      (n : ℕ) (rest : List Bool) → length rest < n → bitvec.chunks_exact n rest ≡ []
  pub load_le_lem : (s : List Bool) → 0 < length s → length s ≤ 64 → bitvec.load_le s ≡ from_bits s
