-- ===== src/Prove/Prover.antt =====
-- src/prove.rs: `ProvingParams::new`, and `Prover8_56` with its constructor and lookups.
pub mod Lookup
pub mod Groups
use post_rs.Base.{ℕ, zero, suc, ◌+◌, ◌-◌, ◌*◌, ◌/◌, ◌%◌, Option, none, some, List, [], ◌∷◌, Bool}
use post_rs.Base.{length, get_elem?, take, map, range_from, ltb, ◌==◌, not, ◌&&◌, if◌then◌else◌}
use post_rs.Base.Words.{Result, ok, err, u64}
use post_rs.Config.{ProofConfig}
use post_rs.Metadata.{PostMetadata}
use post_rs.Difficulty.{DifficultyError, proving_difficulty, U256, scale_pow_difficulty}
use post_rs.Crates.{Blake3, Aes}
use post_rs.Cipher.{AesCipher, new_cipher, new_lazy}
use post_rs.Pow.{PowError}
use post_rs.Prove.Nonces.{
  Range, nonces_per_aes, calc_nonce_group, nonce_group_range, split_difficulty,
}

pub record ProvingParams : Type 0 where
  pub difficulty : ℕ
  pub pow_difficulty : List ℕ

-- `ProvingParams::new`; `none` is the panic of a division by no units.
unfoldable pub new_params :
    U256 → PostMetadata → ProofConfig → Option (Result DifficultyError ProvingParams)
new_params u256 metadata cfg =
    let num_labels = u64 (metadata.num_units * metadata.labels_per_unit) in
    elim (scale_pow_difficulty u256 cfg.pow_difficulty metadata.num_units) [
      | none ↦ none
      | some pow_difficulty ↦ elim (proving_difficulty cfg.k1 num_labels) [
        | err e ↦ some (err e)
        | ok difficulty ↦
            some (ok (record { difficulty = difficulty; pow_difficulty = pow_difficulty }))
      ]
    ]

pub data ProverError (E : Type 0) : Type 0 where
  bad_start : ProverError E
  bad_count : ProverError E
  group_too_big : ℕ → ProverError E
  pow_failed : PowError E → ProverError E

module _ (blake3 : Blake3) (aes128 : Aes) where
  pub record Prover : Type 0 where
    pub ciphers : List (AesCipher blake3 aes128)
    pub lazy_ciphers : List (AesCipher blake3 aes128)
    pub difficulty_msb : ℕ
    pub difficulty_lsb : ℕ

  -- `trait pow::Prover`: group, challenge prefix, difficulty and miner id to a proof of work.
  abbrev pub PowProver : Type 0 → Type 0
  PowProver E = ℕ → List ℕ → List ℕ → List ℕ → Result (PowError E) ℕ

  module _ {E : Type 0} (pow_prover : PowProver E) (challenge : List ℕ) (params : ProvingParams)
      (miner_id : List ℕ) where
    unfoldable pub group_cipher : ℕ → Result (ProverError E) (AesCipher blake3 aes128)
    group_cipher nonce_group =
        if ltb nonce_group 256
        then elim (pow_prover nonce_group (take 8 challenge) params.pow_difficulty miner_id) [
          | err e ↦ err (pow_failed e)
          | ok pow ↦ ok (new_cipher blake3 aes128 challenge nonce_group pow)
        ]
        else err (group_too_big nonce_group)

    -- `collect::<Result<_>>` stops at the first error.
    unfoldable pub group_ciphers : List ℕ → Result (ProverError E) (List (AesCipher blake3 aes128))
    group_ciphers [] = ok []
    group_ciphers (nonce_group ∷ rest) = elim (group_cipher nonce_group) [
      | err e ↦ err e
      | ok cipher ↦ elim (group_ciphers rest) [ err e ↦ err e | ok ciphers ↦ ok (cipher ∷ ciphers) ]
    ]

  -- The ciphers of single nonces; `none` is the panic of an index out of range.
  unfoldable pub lazy_ciphers_of :
      List ℕ → List (AesCipher blake3 aes128) → List ℕ → Option (List (AesCipher blake3 aes128))
  lazy_ciphers_of challenge ciphers [] = some []
  lazy_ciphers_of challenge ciphers (nonce ∷ nonces) =
      let nonce_group = calc_nonce_group nonce nonces_per_aes in
      elim (get_elem? ciphers (nonce_group % length ciphers)) [
        | none ↦ none
        | some cipher ↦ elim (lazy_ciphers_of challenge ciphers nonces) [
          | none ↦ none
          | some rest ↦ some (new_lazy blake3 aes128 challenge nonce nonce_group cipher.pow ∷ rest)
        ]
      ]

  abbrev pub range_list : Range → List ℕ
  range_list r = range_from r.start (r.end - r.start)

  -- `Prover8_56::new`; `none` is a panic.
  unfoldable pub new_prover :
      {E : Type 0}
      → PowProver E
      → List ℕ
      → Range
      → ProvingParams
      → List ℕ
      → Option (Result (ProverError E) Prover)
  new_prover pow_prover challenge nonces params miner_id =
      if not (nonces.start % nonces_per_aes == 0)
      then some (err bad_start)
      else if not
          (ltb nonces.start nonces.end && ((nonces.end - nonces.start) % nonces_per_aes == 0))
      then some (err bad_count)
      else elim (group_ciphers pow_prover challenge params miner_id
          (range_list (nonce_group_range nonces nonces_per_aes))) [
            | err e ↦ some (err e)
            | ok ciphers ↦ elim (lazy_ciphers_of challenge ciphers (range_list nonces)) [
              | none ↦ none
              | some lazy_ciphers ↦
                  let (msb, lsb) = split_difficulty params.difficulty in
                  some (
                    ok (record {
                      ciphers = ciphers;
                      lazy_ciphers = lazy_ciphers;
                      difficulty_msb = msb;
                      difficulty_lsb = lsb;
                    }))
            ]
          ]

  unfoldable pub cipher : Prover → ℕ → Option (AesCipher blake3 aes128)
  cipher prover nonce =
      get_elem? prover.ciphers (calc_nonce_group nonce nonces_per_aes % length prover.ciphers)

  unfoldable pub lazy_cipher : Prover → ℕ → Option (AesCipher blake3 aes128)
  lazy_cipher prover nonce = get_elem? prover.lazy_ciphers (nonce % length prover.lazy_ciphers)

  unfoldable pub get_pow : Prover → ℕ → Option ℕ
  get_pow prover nonce = elim (cipher prover nonce) [ none ↦ none | some aes ↦ some aes.pow ]
