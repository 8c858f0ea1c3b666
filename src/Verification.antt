-- ===== src/Verification.antt =====
-- src/verification.rs: verifying a proof.
pub mod Metadata
pub mod Length
pub mod Label
pub mod Indices
pub mod Selected
pub mod Accept
pub mod Wide
pub mod ZeroLabels
pub mod Agreement
use post_rs.Base.{
  ℕ, zero, suc, ◌+◌, ◌-◌, ◌*◌, ◌/◌, ◌%◌, ◌^◌, Bool, Option, none, some, List, [], ◌∷◌,
}
use post_rs.Base.{length, take, get_elem?, ltb, leb, ◌==◌, if◌then◌else◌}
use post_rs.Base.Bytes.{to_le_bytes, from_le_bytes}
use post_rs.Base.Words.{Result, ok, err, u64}
use post_rs.Config.{ScryptParams, InitConfig, ProofConfig}
use post_rs.Compression.{decompress_indexes, required_bits}
use post_rs.Compression.Interface.{BitVec}
use post_rs.Difficulty.{DifficultyError, proving_difficulty, U256, scale_pow_difficulty}
use post_rs.Metadata.{ProofMetadata}
use post_rs.Crates.{Blake3, Aes, Scrypt}
use post_rs.Pow.{PowError}
use post_rs.Cipher.{AesCipher, new_cipher, new_lazy}
use post_rs.Initialize.{calc_commitment, generate_label}
use post_rs.Prove.Nonces.{nonces_per_aes, split_difficulty}
use post_rs.RandomValues.{
  RandomValuesIterator, new_iterator, next, item, finished, panic, out_of_fuel,
}

pub data MetadataValidationError : Type 0 where
  num_units_too_small : ℕ → ℕ → MetadataValidationError
  num_units_too_large : ℕ → ℕ → MetadataValidationError

pub verify_metadata : ProofMetadata → InitConfig → Result MetadataValidationError (Unit {0})
verify_metadata metadata init_cfg =
    if ltb metadata.num_units init_cfg.min_num_units
    then err (num_units_too_small init_cfg.min_num_units metadata.num_units)
    else if ltb init_cfg.max_num_units metadata.num_units
    then err (num_units_too_large init_cfg.max_num_units metadata.num_units)
    else ok tt

pub data Error (E : Type 0) : Type 0 where
  nonce_group_out_of_bounds : ℕ → Error E
  pow_error : PowError E → Error E
  invalid_indices_len : ℕ → ℕ → Error E
  invalid_msb : ℕ → ℕ → ℕ → List ℕ → Error E
  invalid_lsb : ℕ → ℕ → ℕ → List ℕ → Error E
  invalid_metadata : MetadataValidationError → Error E
  invalid_num_labels : DifficultyError → Error E

-- What `verify` does. Drawing random numbers has no bound in the code; here it has fuel.
pub data Verdict (E : Type 0) : Type 0 where
  accepted : Verdict E
  rejected : Error E → Verdict E
  panicked : Verdict E
  stuck : Verdict E

pub next_multiple_of : ℕ → ℕ → ℕ
next_multiple_of n mult = let r = n % mult in if r == 0 then n else n + (mult - r)

-- The length of compressed indices.
pub expected_indices_bytes : ℕ → ℕ → ℕ
expected_indices_bytes bits k2 = next_multiple_of (bits * k2) 8 / 8

pub record Proof : Type 0 where
  pub nonce : ℕ
  pub indices : List ℕ
  pub pow : ℕ

-- `trait PowVerifier`
abbrev pub PowVerifier : Type 0 → Type 0
PowVerifier E = ℕ → ℕ → List ℕ → List ℕ → List ℕ → Result (PowError E) (Unit {0})

-- The crates that the verifier calls, and the fuel for each random number.
pub record Env : Type 1 where
  pub bitvec : BitVec
  pub u256 : U256
  pub blake3 : Blake3
  pub aes : Aes
  pub scrypt : Scrypt
  pub fuel : ℕ

module _ (env : Env) where
  open env use {blake3, aes}

  -- What the check of each index needs.
  pub record Check : Type 0 where
    pub cipher : AesCipher blake3 aes
    pub lazy_cipher : AesCipher blake3 aes
    pub difficulty_msb : ℕ
    pub difficulty_lsb : ℕ
    pub output_index : ℕ

  pub check_of : Proof → ProofMetadata → ℕ → Check
  check_of proof metadata difficulty =
      let nonce_group = proof.nonce / nonces_per_aes in
      let (msb, lsb) = split_difficulty difficulty in
      record {
        cipher = new_cipher blake3 aes metadata.challenge nonce_group proof.pow;
        lazy_cipher = new_lazy blake3 aes metadata.challenge proof.nonce nonce_group proof.pow;
        difficulty_msb = msb;
        difficulty_lsb = lsb;
        output_index = proof.nonce % nonces_per_aes;
      }

  pub verify_seed : Proof → ProofMetadata → List (List ℕ)
  verify_seed proof metadata =
      metadata.challenge ∷ to_le_bytes 4 proof.nonce ∷ proof.indices ∷ to_le_bytes 8 proof.pow ∷ []

module _ {E : Type 0} (env : Env) where
  open env use {bitvec, u256, blake3, aes, scrypt, fuel}

  -- The check of the 56 bits below the top byte.
  pub check_label_lsb : Check env → ℕ → List ℕ → Verdict E
  check_label_lsb check index label =
      let lsb = from_le_bytes (take 8 (aes.encrypt_block check.lazy_cipher.aes label)) % 2 ^ 56 in
      if leb check.difficulty_lsb lsb
      then rejected (invalid_lsb index lsb check.difficulty_lsb label)
      else accepted

  -- The check of one label; a panic if the cipher gives no such byte.
  pub check_label : Check env → ℕ → List ℕ → Verdict E
  check_label check index label =
      elim (get_elem? (aes.encrypt_block check.cipher.aes label) check.output_index) [
        | none ↦ panicked
        | some msb ↦
            if ltb msb check.difficulty_msb
            then accepted
            else if ltb check.difficulty_msb msb
            then rejected (invalid_msb index msb check.difficulty_msb label)
            else check_label_lsb check index label
      ]

  pub check_index : Check env → List ℕ → ScryptParams → ℕ → Verdict E
  check_index check commitment params index = elim (generate_label scrypt commitment params index) [
    | none ↦ panicked
    | some label ↦ check_label check index label
  ]

  -- `k3_indices.into_iter().try_for_each(..)`: the next index is drawn when those before it passed.
  pub check_indices :
      Check env → List ℕ → ScryptParams → ℕ → RandomValuesIterator blake3 ℕ → Verdict E
  check_indices check commitment params zero it = accepted
  check_indices check commitment params (suc count) it = elim (next blake3 fuel it) [
    | item (index, it') ↦ elim (check_index check commitment params index) [
      | accepted ↦ check_indices check commitment params count it'
      | rejected e ↦ rejected e
      | panicked ↦ panicked
      | stuck ↦ stuck
    ]
    | finished ↦ accepted
    | panic ↦ panicked
    | out_of_fuel ↦ stuck
  ]

  -- `verify` from the unpacking of the indices on.
  pub verify_indices : Proof → ProofMetadata → ProofConfig → InitConfig → ℕ → Verdict E
  verify_indices proof metadata cfg init_cfg num_labels =
      elim (decompress_indexes bitvec proof.indices (required_bits num_labels)) [
        | none ↦ panicked
        | some unpacked ↦ elim (proving_difficulty cfg.k1 num_labels) [
          | err e ↦ rejected (invalid_num_labels e)
          | ok difficulty ↦
              check_indices (check_of env proof metadata difficulty)
                (calc_commitment blake3 metadata.node_id metadata.commitment_atx_id) init_cfg.scrypt
                cfg.k3 (new_iterator blake3 (take cfg.k2 unpacked) (verify_seed env proof metadata))
        ]
      ]

  -- `verify` from the check of the number of indices on.
  pub verify_len : Proof → ProofMetadata → ProofConfig → InitConfig → Verdict E
  verify_len proof metadata cfg init_cfg =
      let num_labels = u64 (metadata.num_units * init_cfg.labels_per_unit) in
      let expected = expected_indices_bytes (required_bits num_labels) cfg.k2 in
      if length proof.indices == expected
      then verify_indices proof metadata cfg init_cfg num_labels
      else rejected (invalid_indices_len expected (length proof.indices))

  -- `verify` from the check of the proof of work on.
  pub verify_pow :
      PowVerifier E → Proof → ProofMetadata → ProofConfig → InitConfig → List ℕ → Verdict E
  verify_pow pow_verifier proof metadata cfg init_cfg pow_difficulty =
      let nonce_group = proof.nonce / nonces_per_aes in
      if ltb nonce_group 256
      then elim (pow_verifier proof.pow nonce_group (take 8 metadata.challenge) pow_difficulty
          metadata.node_id) [
            | err e ↦ rejected (pow_error e)
            | ok _ ↦ verify_len proof metadata cfg init_cfg
          ]
      else rejected (nonce_group_out_of_bounds nonce_group)

  -- `Verifier::verify`
  pub verify : PowVerifier E → Proof → ProofMetadata → ProofConfig → InitConfig → Verdict E
  verify pow_verifier proof metadata cfg init_cfg = elim (verify_metadata metadata init_cfg) [
    | err e ↦ rejected (invalid_metadata e)
    | ok _ ↦ elim (scale_pow_difficulty u256 cfg.pow_difficulty metadata.num_units) [
      | none ↦ panicked
      | some pow_difficulty ↦ verify_pow pow_verifier proof metadata cfg init_cfg pow_difficulty
    ]
  ]
