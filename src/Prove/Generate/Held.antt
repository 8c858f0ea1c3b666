-- ===== src/Prove/Generate/Held.antt =====
-- What a proof that `generate_proof` returns holds.
use post_rs.Base.{ℕ, ◌/◌, ◌≡◌, some, List}
use post_rs.Base.{length, All, IsMember}
use post_rs.Base.Words.{ok}
use post_rs.Base.Outcome.{Outcome}
use post_rs.Config.{ProofConfig}
use post_rs.Metadata.{PostMetadata, total_labels}
use post_rs.Crates.{Blake3, Aes}
use post_rs.Compression.{compress_indices, required_bits}
use post_rs.Compression.Interface.{BitVec}
use post_rs.Reader.{Batch}
use post_rs.Verification.{Proof}
use post_rs.Prove.Nonces.{Range}
use post_rs.Prove.Prover.{ProvingParams, PowProver, Prover, new_prover, get_pow}
use post_rs.Prove.Scan.Feed.{candidates}
use post_rs.Prove.Generate.{Surroundings}

module _ (blake3 : Blake3) (aes128 : Aes) (bitvec : BitVec) {E : Type 0}
    (around : Surroundings blake3 aes128 E) (challenge : List ℕ) (cfg : ProofConfig) (nonces : ℕ)
    (metadata : PostMetadata) (params : ProvingParams) (pow : PowProver blake3 aes128 E) where
  -- Some batch has the nonce and the index among its candidates.
  abbrev pub IsCandidateOf : Prover blake3 aes128 → List Batch → ℕ → ℕ → Type 0
  IsCandidateOf prover batches nonce index =
      (batch : Batch) × IsMember batch batches
      × IsMember (nonce, index) (candidates blake3 aes128 prover batch.data_bytes (batch.pos / 16))

  -- The proof has exactly `k2` indices, candidates of its nonce for the prover of some range, in the
  -- batches that were read.
  abbrev pub IsBacked : Proof → Type 0
  IsBacked proof =
      (r : Range) × (prover : Prover blake3 aes128) × (batches : List Batch) × (indices : List ℕ)
      × (new_prover blake3 aes128 pow challenge r params metadata.node_id ≡ some (ok prover))
      × (around.read_data r ≡ some batches)
      × (length indices ≡ cfg.k2)
      × All (IsCandidateOf prover batches proof.nonce) indices
      × (compress_indices bitvec indices (required_bits (total_labels metadata))
          ≡ some proof.indices)
      × (get_pow blake3 aes128 prover proof.nonce ≡ some proof.pow)
