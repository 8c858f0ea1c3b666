-- ===== src/Verification/Length.antt =====
-- The length that the verifier expects is the length of what the prover packs.
use post_rs.Base.{ℕ, ◌+◌, ◌*◌, ◌≤◌, ◌<◌, ◌≡◌, arith, some, List}
use post_rs.Base.{length}
use post_rs.Compression.{compress_indices}
use post_rs.Compression.Interface.{BitVec, BitVecLaws}
use post_rs.Compression.RoundTrip.{length-compress_indices}
use post_rs.Verification.{next_multiple_of, expected_indices_bytes}

pub expected_bounds :
    (bits k2 : ℕ)
    → (bits * k2 ≤ 8 * expected_indices_bytes bits k2)
      × (8 * expected_indices_bytes bits k2 < bits * k2 + 8)
unfolding expected_indices_bytes next_multiple_of
expected_bounds bits k2 = ground arith

-- Any `k2` indices packed into at most 64 bits each take exactly the number of bytes that `verify`
-- expects of a proof.
pub length-compress_indices-expected_indices_bytes :
    (bitvec : BitVec) (laws : BitVecLaws bitvec) (is : List ℕ) (bits : ℕ)
    → bits ≤ 64
    → (bytes : List ℕ) × (compress_indices bitvec is bits ≡ some bytes)
      × (length bytes ≡ expected_indices_bytes bits (length is))
length-compress_indices-expected_indices_bytes bitvec laws is bits h =
    let (bytes, e, lo, hi) = length-compress_indices bitvec laws is bits h in
    (bytes, e, grind (arith, expected_bounds bits (length is)))
