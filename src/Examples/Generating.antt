-- ===== src/Examples/Generating.antt =====
-- A proof generated from one batch of eight labels, and a run of the loop that is stopped.
use post_rs.Base.{refl, ℕ, ◌≤◌, ◌*◌, ◌^◌, Bool, true, false, List, [], ◌∷◌, some, none}
use post_rs.Base.{replicate, map, drop, range_from}
use post_rs.Base.Words.{ok}
use post_rs.Base.Outcome.{Outcome, failed}
use post_rs.Config.{ProofConfig}
use post_rs.Metadata.{PostMetadata}
use post_rs.Cipher.{new_cipher, new_lazy}
use post_rs.Reader.{Batch}
use post_rs.Verification.{Proof}
use post_rs.Prove.Nonces.{calc_nonce_group, nonce_group_range, split_difficulty}
use post_rs.Prove.Prover.{
  ProvingParams, PowProver, Prover, group_cipher, group_ciphers, lazy_ciphers_of, new_prover,
}
use post_rs.Prove.Scan.Feed.{candidates}
use post_rs.Prove.Search.{stopped as search_stopped}
use post_rs.Prove.Generate.{
  GenerateError, was_stopped, Surroundings, first_range, next_range, Generates, stopped, next_round,
  GeneratesProof,
}
use post_rs.Prove.Generate.Ends.{rounds, generate_proof_ends, rounds-first_range}
use post_rs.Examples.Crates.{blake3, aes, u256}
use post_rs.Examples.Bits.{bitvec}

abbrev metadata : PostMetadata
metadata = record {
  node_id = replicate 32 2;
  commitment_atx_id = replicate 32 3;
  labels_per_unit = 8;
  num_units = 1;
  max_file_size = 128;
  nonce = none;
  last_position = none;
}

abbrev cfg : ProofConfig
cfg = record { k1 = 7; k2 = 1; k3 = 1; pow_difficulty = replicate 32 255 }

abbrev params : ProvingParams
params = record { difficulty = 2 ^ 61 * 7; pow_difficulty = replicate 32 255 }

abbrev challenge : List ℕ
challenge = replicate 32 4

-- The proof of work of a group is the group.
abbrev pow : PowProver blake3 aes (Unit {0})
pow = λ nonce_group challenge difficulty miner_id. ok nonce_group

abbrev around : Bool → Surroundings blake3 aes (Unit {0})
around stop = record {
  metadata = some metadata;
  new_pow = ok pow;
  build_pool = some tt;
  read_data = λ r. some (record { data_bytes = replicate 128 1; pos = 0 } ∷ []);
  stop = stop;
}

-- The prover of the first sixteen nonces.
abbrev prover : Prover blake3 aes
prover = record {
  ciphers = new_cipher blake3 aes challenge 0 0 ∷ [];
  lazy_ciphers = map (λ nonce. new_lazy blake3 aes challenge nonce 0 0) (range_from 0 16);
  difficulty_msb = 224;
  difficulty_lsb = 0;
}

abbrev batches : List Batch
batches = record { data_bytes = replicate 128 1; pos = 0 } ∷ []

abbrev rest : List (ℕ × ℕ)
rest = drop 1 (candidates blake3 aes prover (replicate 128 1) 0)

abbrev proof : Proof
proof = record { nonce = 0; indices = 0 ∷ []; pow = 0 }

generate_proof_ends_example :
    (outcome : Outcome (GenerateError (Unit {0})) Proof) × GeneratesProof blake3 aes bitvec
      (around false)
      challenge
      cfg
      16
      u256
      outcome
generate_proof_ends_example =
    generate_proof_ends blake3 aes bitvec (around false) challenge cfg 16 u256

two_rounds :
    Generates blake3 aes bitvec
      (around true)
      challenge
      cfg
      16
      metadata
      params
      pow
      (first_range 16)
      (failed was_stopped)
unfolding new_prover group_ciphers group_cipher lazy_ciphers_of nonce_group_range calc_nonce_group
    split_difficulty first_range new_cipher
two_rounds =
    next_round (first_range 16) prover batches (failed was_stopped) refl refl
      (search_stopped [] _ refl) (stopped (next_range 16 (first_range 16)) refl)

rounds-first_range_example :
    rounds blake3 aes bitvec (around true) challenge cfg 16 metadata params pow two_rounds ≤ 256
rounds-first_range_example =
    rounds-first_range blake3 aes bitvec (around true) challenge cfg 16 metadata params pow
      (failed was_stopped) two_rounds
