-- ===== src/Prove/Generate.antt =====
-- src/prove.rs: `Proof::new` and `generate_proof`. A search in the batches has an open result, so
-- `Generates` relates the range of nonces that a round of the loop starts with and what the code may
-- return from there on.
pub mod Ends
pub mod Held
use post_rs.Base.{ℕ, ◌+◌, ◌*◌, ◌/◌, ◌≡◌, Bool, true, Option, none, some, List, [], ◌∷◌, map}
use post_rs.Base.Words.{Result, ok, err, u32, u64}
use post_rs.Base.Outcome.{Outcome, done, failed, panicked, ◌>>=◌, lift, expect}
use post_rs.Config.{ProofConfig}
use post_rs.Metadata.{PostMetadata}
use post_rs.Crates.{Blake3, Aes}
use post_rs.Compression.{compress_indices, required_bits}
use post_rs.Compression.Interface.{BitVec}
use post_rs.Difficulty.{DifficultyError, U256}
use post_rs.Pow.{PowError}
use post_rs.Reader.{Batch}
use post_rs.Verification.{Proof}
use post_rs.Prove.Nonces.{Range, block_size}
use post_rs.Prove.Prover.{
  ProvingParams, new_params, ProverError, Prover, PowProver, new_prover, get_pow,
}
use post_rs.Prove.Scan.Feed.{candidates}
use post_rs.Prove.Search.{Searches}

-- `none` is the panic of `compress_indices`.
unfoldable pub new_proof : BitVec → ℕ → List ℕ → ℕ → ℕ → Option Proof
new_proof bitvec nonce indices num_labels pow =
    elim (compress_indices bitvec indices (required_bits num_labels)) [
      | none ↦ none
      | some packed ↦ some (record { nonce = nonce; indices = packed; pow = pow })
    ]

pub data GenerateError (E : Type 0) : Type 0 where
  loading_metadata : GenerateError E
  bad_params : DifficultyError → GenerateError E
  pow_error : PowError E → GenerateError E
  building_thread_pool : GenerateError E
  was_stopped : GenerateError E
  creating_prover : ProverError E → GenerateError E
  reading_data : GenerateError E

unfoldable pub map_err : {E F A : Type 0} → (E → F) → Result E A → Result F A
map_err f (ok a) = ok a
map_err f (err e) = err (f e)

-- What `generate_proof` makes of its surroundings: the metadata it loads, the proof of work, the thread
-- pool, and the batches of `read_data` in the round of each range.
pub record Surroundings (blake3 : Blake3) (aes128 : Aes) (E : Type 0) : Type 0 where
  pub metadata : Option PostMetadata
  pub new_pow : Result (PowError E) (PowProver blake3 aes128 E)
  pub build_pool : Option (Unit {0})
  pub read_data : Range → Option (List Batch)
  pub stop : Bool

unfoldable pub first_range : ℕ → Range
first_range nonces = record { start = 0; end = u32 nonces }

unfoldable pub next_range : ℕ → Range → Range
next_range nonces r = record { start = r.end; end = u32 (r.end + u32 nonces) }

module _ (blake3 : Blake3) (aes128 : Aes) (bitvec : BitVec) {E : Type 0}
    (around : Surroundings blake3 aes128 E) (challenge : List ℕ) (cfg : ProofConfig)
    (nonces : ℕ) where
  -- The candidates of each batch, which `prove` hands to its closure in order.
  unfoldable pub queues_of : Prover blake3 aes128 → List Batch → List (List (ℕ × ℕ))
  queues_of prover batches =
      map (λ (b : Batch). candidates blake3 aes128 prover b.data_bytes (b.pos / block_size)) batches

  -- The proof for a nonce and the indices that were found for it.
  unfoldable pub found_proof :
      PostMetadata → Prover blake3 aes128 → ℕ × List ℕ → Outcome (GenerateError E) Proof
  found_proof metadata prover (nonce, indices) = do
    let num_labels = u64 (metadata.num_units * metadata.labels_per_unit)
    pow ← expect (get_pow blake3 aes128 prover nonce)
    expect (new_proof bitvec nonce indices num_labels pow)

  pub data Generates (metadata : PostMetadata) (params : ProvingParams)
      (pow : PowProver blake3 aes128 E) : Range → Outcome (GenerateError E) Proof → Type 0 where
    stopped :
        (r : Range) → around.stop ≡ true → Generates metadata params pow r (failed was_stopped)
    no_prover :
        (r : Range) (e : ProverError E)
        → new_prover blake3 aes128 pow challenge r params metadata.node_id ≡ some (err e)
        → Generates metadata params pow r (failed (creating_prover e))
    prover_panics :
        (r : Range)
        → new_prover blake3 aes128 pow challenge r params metadata.node_id ≡ none
        → Generates metadata params pow r panicked
    no_data :
        (r : Range) (prover : Prover blake3 aes128)
        → new_prover blake3 aes128 pow challenge r params metadata.node_id ≡ some (ok prover)
        → around.read_data r ≡ none
        → Generates metadata params pow r (failed reading_data)
    found :
        (r : Range) (prover : Prover blake3 aes128) (batches : List Batch) (result : ℕ × List ℕ)
        (outcome : Outcome (GenerateError E) Proof)
        → new_prover blake3 aes128 pow challenge r params metadata.node_id ≡ some (ok prover)
        → around.read_data r ≡ some batches
        → Searches cfg.k2 around.stop [] (queues_of prover batches) (some result)
        → outcome ≡ found_proof metadata prover result
        → Generates metadata params pow r outcome
    next_round :
        (r : Range) (prover : Prover blake3 aes128) (batches : List Batch)
        (outcome : Outcome (GenerateError E) Proof)
        → new_prover blake3 aes128 pow challenge r params metadata.node_id ≡ some (ok prover)
        → around.read_data r ≡ some batches
        → Searches cfg.k2 around.stop [] (queues_of prover batches) none
        → Generates metadata params pow (next_range nonces r) outcome
        → Generates metadata params pow r outcome

  -- What stands before the loop: the metadata, the parameters and the prover of the proof of work.
  unfoldable pub prepare :
      U256 → Outcome (GenerateError E) (PostMetadata × ProvingParams × PowProver blake3 aes128 E)
  prepare u256 = do
    metadata ← elim around.metadata [ none ↦ failed loading_metadata | some m ↦ done m ]
    made ← expect (new_params u256 metadata cfg)
    params ← lift (map_err bad_params made)
    pow ← lift (map_err pow_error around.new_pow)
    pool ← elim around.build_pool [ none ↦ failed building_thread_pool | some p ↦ done p ]
    done (metadata, params, pow)

  -- From there the loop starts with the first range.
  abbrev pub Follows :
      Outcome (GenerateError E) (PostMetadata × ProvingParams × PowProver blake3 aes128 E)
      → Outcome (GenerateError E) Proof
      → Type 0
  Follows (done (metadata, params, pow)) outcome =
      Generates metadata params pow (first_range nonces) outcome
  Follows (failed e) outcome = outcome ≡ failed e
  Follows panicked outcome = outcome ≡ panicked

  -- The results that `generate_proof` may have.
  unfoldable pub GeneratesProof : U256 → Outcome (GenerateError E) Proof → Type 0
  GeneratesProof u256 outcome = Follows (prepare u256) outcome
