-- ===== src/Verification/Accept.antt =====
-- When `verify` accepts a proof.
use post_rs.Base.{ℕ, ◌/◌, ◌≤◌, ◌<◌, ◌≡◌, ◌↔◌, arith, some, List}
use post_rs.Base.{length, take}
use post_rs.Base.Words.{ok, IsU32}
use post_rs.Config.{InitConfig, ProofConfig}
use post_rs.Compression.{required_bits}
use post_rs.Crates.{AesLaws}
use post_rs.Difficulty.{scale_pow_difficulty}
use post_rs.Metadata.{ProofMetadata}
use post_rs.Verification.{
  Env, Proof, PowVerifier, accepted, verify_indices, verify_len, verify_pow, verify,
  verify_metadata, expected_indices_bytes,
}
use post_rs.Verification.Metadata.{verify_metadata_ok_iff}
use post_rs.Verification.Selected.{num_labels_of, IndicesPass, indices_iff}

module _ (E : Type 0) (env : Env) (proof : Proof) (metadata : ProofMetadata) (cfg : ProofConfig)
    (init_cfg : InitConfig) where
  len_iff : (verify_len {E = E} env proof metadata cfg init_cfg ≡ accepted) ↔ (
      (length proof.indices
        ≡ expected_indices_bytes (required_bits (num_labels_of metadata init_cfg)) cfg.k2)
      × (verify_indices {E = E} env proof metadata cfg init_cfg (num_labels_of metadata init_cfg)
          ≡ accepted))
  unfolding verify_len
  len_iff = ground arith

  module _ (pow_verifier : PowVerifier E) where
    pow_iff :
        (pow_difficulty : List ℕ)
        → (verify_pow env pow_verifier proof metadata cfg init_cfg pow_difficulty ≡ accepted) ↔ (
            (proof.nonce / 16 < 256)
            × (pow_verifier proof.pow
                  (proof.nonce / 16)
                  (take 8 metadata.challenge)
                  pow_difficulty
                  metadata.node_id
                ≡ ok tt)
            × (verify_len {E = E} env proof metadata cfg init_cfg ≡ accepted))
    unfolding verify_pow
    pow_iff pow_difficulty = ground arith

    whole_iff :
        (pow_difficulty : List ℕ)
        → scale_pow_difficulty env.u256 cfg.pow_difficulty metadata.num_units ≡ some pow_difficulty
        → (verify env pow_verifier proof metadata cfg init_cfg ≡ accepted) ↔ (
            (verify_metadata metadata init_cfg ≡ ok tt)
            × (verify_pow env pow_verifier proof metadata cfg init_cfg pow_difficulty ≡ accepted))
    unfolding verify
    whole_iff pow_difficulty e = ground (arith, e)

  -- What a valid proof is: enough units, a nonce in one of the 256 groups, a proof of work, packed
  -- indices of the right length, and selected indices whose labels are below the difficulty.
  unfoldable pub ValidProof : PowVerifier E → List ℕ → Type 0
  ValidProof pow_verifier pow_difficulty =
      (init_cfg.min_num_units ≤ metadata.num_units)
      × (metadata.num_units ≤ init_cfg.max_num_units)
      × (proof.nonce < 4096)
      × (pow_verifier proof.pow (proof.nonce / 16) (take 8 metadata.challenge) pow_difficulty
            metadata.node_id
          ≡ ok tt)
      × (length proof.indices
          ≡ expected_indices_bytes (required_bits (num_labels_of metadata init_cfg)) cfg.k2)
      × IndicesPass env proof metadata cfg init_cfg

  -- For a 32-bit `k1` and a scaled difficulty of the proof of work that exists, `verify` accepts a
  -- proof exactly when it is valid: the number of units is within its bounds, the nonce is below
  -- 4096, the proof of work verifies, the packed indices have the expected length, and the selected
  -- indices pass, which is that they unpack, there is a proving difficulty, the selection ends
  -- within the fuel, and each selected index has a label whose number is below the difficulty.
  pub verify_accepted_iff :
      (laws : AesLaws env.aes) (pow_verifier : PowVerifier E) (pow_difficulty : List ℕ)
      → IsU32 cfg.k1
      → scale_pow_difficulty env.u256 cfg.pow_difficulty metadata.num_units ≡ some pow_difficulty
      → (verify env pow_verifier proof metadata cfg init_cfg ≡ accepted)
        ↔ ValidProof pow_verifier pow_difficulty
  unfolding ValidProof
  verify_accepted_iff laws pow_verifier pow_difficulty h e =
      let (m_to, m_from) = verify_metadata_ok_iff metadata init_cfg in
      let (w_to, w_from) = whole_iff pow_verifier pow_difficulty e in
      let (p_to, p_from) = pow_iff pow_verifier pow_difficulty in
      let (l_to, l_from) = len_iff in
      let (i_to, i_from) = indices_iff E env laws proof metadata cfg init_cfg h in
      (
        λ whole.
            let (units, rest) = w_to whole in
            let (lo, hi) = m_to units in
            let (group, pow, rest) = p_to rest in
            let (size, rest) = l_to rest in (lo, hi, omega arith, pow, size, i_to rest),
        λ (lo, hi, group, pow, size, pass).
            w_from (m_from (lo, hi), p_from (omega arith, pow, l_from (size, i_from pass))),
      )
