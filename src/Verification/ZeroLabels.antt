-- ===== src/Verification/ZeroLabels.antt =====
-- What `verify` does when the number of labels is 0, or wraps to 0.
use post_rs.Base.{ℕ, ◌*◌, ◌/◌, ◌<◌, ◌≡◌, ap, arith, some, none, List, []}
use post_rs.Base.{length, take}
use post_rs.Base.Words.{ok, u64}
use post_rs.Config.{InitConfig, ProofConfig}
use post_rs.Compression.{decompress_indexes, required_bits}
use post_rs.Compression.Required.{required_bits-zero, decompress_indexes-no_bits}
use post_rs.Difficulty.{scale_pow_difficulty}
use post_rs.Metadata.{ProofMetadata}
use post_rs.Verification.{
  Env, Proof, PowVerifier, panicked, verify_indices, verify_len, verify_pow, verify,
  verify_metadata, expected_indices_bytes, next_multiple_of,
}

no_bits :
    (env : Env) (indexes : List ℕ) → decompress_indexes env.bitvec indexes (required_bits 0) ≡ none
no_bits env indexes = rw (required_bits-zero) (decompress_indexes-no_bits env.bitvec indexes)

no_bytes : (k2 : ℕ) → expected_indices_bytes (required_bits 0) k2 ≡ 0
unfolding expected_indices_bytes next_multiple_of
no_bytes k2 = rw (required_bits-zero) (ground arith)

module _ {E : Type 0} (env : Env) (proof : Proof) (metadata : ProofMetadata) (cfg : ProofConfig)
    (init_cfg : InitConfig) where
  indices_panic :
      (num_labels : ℕ)
      → decompress_indexes env.bitvec proof.indices (required_bits num_labels) ≡ none
      → verify_indices {E = E} env proof metadata cfg init_cfg num_labels ≡ panicked
  unfolding verify_indices
  indices_panic num_labels e = ground (arith, e)

  len_panic :
      u64 (metadata.num_units * init_cfg.labels_per_unit) ≡ 0
      → proof.indices ≡ []
      → verify_len {E = E} env proof metadata cfg init_cfg ≡ panicked
  unfolding verify_len
  len_panic zero_labels empty =
      let panics : verify_indices {E = E} env proof metadata cfg init_cfg 0 ≡ panicked =
        indices_panic 0 (no_bits env proof.indices) in
      rw (zero_labels, verify_len) ground (arith, panics, no_bytes cfg.k2, ap length empty)

  -- A proof without indices, with valid metadata and a valid proof of work, makes `verify` panic if
  -- the product of the number of units and of labels per unit is 0 modulo 2 ^ 64: unpacking indices
  -- of 0 bits panics before the error for an invalid number of labels is returned.
  pub verify-panicked :
      (pow_verifier : PowVerifier E) (pow_difficulty : List ℕ)
      → verify_metadata metadata init_cfg ≡ ok tt
      → scale_pow_difficulty env.u256 cfg.pow_difficulty metadata.num_units ≡ some pow_difficulty
      → proof.nonce < 4096
      → pow_verifier proof.pow
          (proof.nonce / 16)
          (take 8 metadata.challenge)
          pow_difficulty
          metadata.node_id
        ≡ ok tt
      → u64 (metadata.num_units * init_cfg.labels_per_unit) ≡ 0
      → proof.indices ≡ []
      → verify env pow_verifier proof metadata cfg init_cfg ≡ panicked
  unfolding verify verify_pow
  verify-panicked pow_verifier pow_difficulty units scaled group pow zero_labels empty =
      ground (arith, units, scaled, pow, len_panic zero_labels empty)
