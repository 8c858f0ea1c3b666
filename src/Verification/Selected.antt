-- ===== src/Verification/Selected.antt =====
-- When `verify` passes the indices that it selects.
use post_rs.Base.{ℕ, ◌*◌, ◌<◌, ◌≡◌, ◌↔◌, [], ◌∷◌, ◌^◌, inl, inr, refl, arith, some, none, List}
use post_rs.Base.{take, All, Option-cases}
use post_rs.Base.Words.{ok, err, IsU32, IsU64, u64, Result-cases}
use post_rs.Config.{ScryptParams, InitConfig, ProofConfig}
use post_rs.Compression.{decompress_indexes, required_bits}
use post_rs.Crates.{AesLaws}
use post_rs.Difficulty.{DifficultyError, proving_difficulty}
use post_rs.Difficulty.Laws.{proving_difficulty_ok_iff, quotient_fits}
use post_rs.Metadata.{ProofMetadata}
use post_rs.Prove.Nonces.{split_difficulty}
use post_rs.Initialize.{calc_commitment, generate_label}
use post_rs.RandomValues.{RandomValuesIterator, new_iterator, take_items}
use post_rs.Verification.{
  Env, Proof, Check, accepted, check_of, check_index, verify_seed, verify_indices,
}
use post_rs.Verification.Indices.{AllPass, check_indices_iff}
use post_rs.Verification.Label.{label_number, check_label_iff}

-- `num_units * labels_per_unit`, which wraps at 64 bits.
abbrev pub num_labels_of : ProofMetadata → InitConfig → ℕ
num_labels_of metadata init_cfg = u64 (metadata.num_units * init_cfg.labels_per_unit)

module _ (env : Env) where
  -- The label at the index exists and its number is below the difficulty.
  abbrev pub Satisfies : Check env → ℕ → List ℕ → ScryptParams → ℕ → Type 0
  Satisfies check difficulty commitment params index =
      (label : List ℕ) × (generate_label env.scrypt commitment params index ≡ some label)
      × (label_number env check label < difficulty)

  -- The indices unpack, there is a difficulty, the selection ends within the fuel, and the label at
  -- each selected index is below the difficulty.
  unfoldable pub IndicesPass : Proof → ProofMetadata → ProofConfig → InitConfig → Type 0
  IndicesPass proof metadata cfg init_cfg =
      (unpacked values : List ℕ) × (difficulty : ℕ) × (it : RandomValuesIterator env.blake3 ℕ)
      × (decompress_indexes env.bitvec proof.indices
            (required_bits (num_labels_of metadata init_cfg))
          ≡ some unpacked)
      × (proving_difficulty cfg.k1 (num_labels_of metadata init_cfg) ≡ ok difficulty)
      × (take_items env.blake3 env.fuel cfg.k3
            (new_iterator env.blake3 (take cfg.k2 unpacked) (verify_seed env proof metadata))
          ≡ some (values, it))
      × All
          (Satisfies (check_of env proof metadata difficulty) difficulty
            (calc_commitment env.blake3 metadata.node_id metadata.commitment_atx_id)
            init_cfg.scrypt)
          values

module _ (E : Type 0) (env : Env) (laws : AesLaws env.aes) (check : Check env) (difficulty : ℕ)
    (commitment : List ℕ) (params : ScryptParams) where
  module _ (fits : IsU64 difficulty)
      (split : split_difficulty difficulty ≡ (check.difficulty_msb, check.difficulty_lsb))
      (place : check.output_index < 16) where
    check_index_iff :
        (index : ℕ)
        → (check_index {E = E} env check commitment params index ≡ accepted)
          ↔ Satisfies env check difficulty commitment params index
    unfolding check_index
    check_index_iff index =
        elim (Option-cases (generate_label env.scrypt commitment params index)) [
          | inl e ↦ (λ p. ground (arith, e), λ p. ground (arith, e, p.1))
          | inr (label, e) ↦
              rw (e, check_index)
                (
                  λ p. (
                    label,
                    refl,
                    (check_label_iff env {E = E} laws check index difficulty label fits split
                          place).0
                        p,
                  ),
                  λ (label', same, low).
                      (check_label_iff env {E = E} laws check index difficulty label fits split
                          place).1
                        (let back : label ≡ label' = cc in rw (back) low),
                )
        ]

All-iff {ℓ κ} :
    {P : ℕ → Type ℓ} {Q : ℕ → Type κ} (f : (i : ℕ) → P i ↔ Q i) (is : List ℕ) → All P is ↔ All Q is
All-iff f [] = (λ p. tt, λ p. tt)
All-iff f (i ∷ is) =
    (λ (p, ps). ((f i).0 p, (All-iff f is).0 ps), λ (p, ps). ((f i).1 p, (All-iff f is).1 ps))

module _ (E : Type 0) (env : Env) (laws : AesLaws env.aes) (proof : Proof)
    (metadata : ProofMetadata) (cfg : ProofConfig) (init_cfg : InitConfig) where
  indices_step :
      (unpacked : List ℕ) (difficulty : ℕ)
      → decompress_indexes env.bitvec proof.indices
          (required_bits (num_labels_of metadata init_cfg))
        ≡ some unpacked
      → proving_difficulty cfg.k1 (num_labels_of metadata init_cfg) ≡ ok difficulty
      → (verify_indices {E = E} env proof metadata cfg init_cfg (num_labels_of metadata init_cfg)
          ≡ accepted)
        ↔ AllPass E env
            (check_of env proof metadata difficulty)
            (calc_commitment env.blake3 metadata.node_id metadata.commitment_atx_id)
            init_cfg.scrypt
            cfg.k3
            (new_iterator env.blake3 (take cfg.k2 unpacked) (verify_seed env proof metadata))
  unfolding verify_indices
  indices_step unpacked difficulty e e' =
      (rw (e, verify_indices) (rw (e') (check_indices_iff E env _ _ _ _ _)))

  difficulty_fits :
      (difficulty : ℕ)
      → IsU32 cfg.k1
      → proving_difficulty cfg.k1 (num_labels_of metadata init_cfg) ≡ ok difficulty
      → IsU64 difficulty
  difficulty_fits difficulty h e =
      let (more, lo, hi) =
        (proving_difficulty_ok_iff cfg.k1 (num_labels_of metadata init_cfg) difficulty h).0 e in
      quotient_fits difficulty (num_labels_of metadata init_cfg) (2 ^ 64) cfg.k1 (omega arith) lo
        more

  passes_iff :
      (difficulty : ℕ) (is : List ℕ)
      → IsU64 difficulty
      → All
          (λ index.
            check_index {E = E} env
              (check_of env proof metadata difficulty)
              (calc_commitment env.blake3 metadata.node_id metadata.commitment_atx_id)
              init_cfg.scrypt
              index
            ≡ accepted)
          is
        ↔ All
            (Satisfies env
              (check_of env proof metadata difficulty)
              difficulty
              (calc_commitment env.blake3 metadata.node_id metadata.commitment_atx_id)
              init_cfg.scrypt)
            is
  unfolding check_of
  passes_iff difficulty is fits =
      All-iff
        (check_index_iff E env laws (check_of env proof metadata difficulty) difficulty _
          init_cfg.scrypt fits refl (omega arith))
        is

  none_rejected :
      decompress_indexes env.bitvec proof.indices (required_bits (num_labels_of metadata init_cfg))
        ≡ none
      → ¬ (
          verify_indices {E = E} env proof metadata cfg init_cfg (num_labels_of metadata init_cfg)
          ≡ accepted)
  unfolding verify_indices
  none_rejected e = ground (arith, e)

  bad_rejected :
      (unpacked : List ℕ) (bad : DifficultyError)
      → decompress_indexes env.bitvec proof.indices
          (required_bits (num_labels_of metadata init_cfg))
        ≡ some unpacked
      → proving_difficulty cfg.k1 (num_labels_of metadata init_cfg) ≡ err bad
      → ¬ (
          verify_indices {E = E} env proof metadata cfg init_cfg (num_labels_of metadata init_cfg)
          ≡ accepted)
  unfolding verify_indices
  bad_rejected unpacked bad e e' = ground (arith, e, e')

  pub indices_iff :
      IsU32 cfg.k1
      → (verify_indices {E = E} env proof metadata cfg init_cfg (num_labels_of metadata init_cfg)
          ≡ accepted)
        ↔ IndicesPass env proof metadata cfg init_cfg
  unfolding IndicesPass AllPass
  indices_iff h = (
    to,
    λ (unpacked, values, difficulty, it, u, d, t, passed).
        (indices_step unpacked difficulty u d).1
          (values, it, t, (passes_iff difficulty values (difficulty_fits difficulty h d)).1 passed),
  )
    where
      to :
          verify_indices {E = E} env proof metadata cfg init_cfg (num_labels_of metadata init_cfg)
            ≡ accepted
          → IndicesPass env proof metadata cfg init_cfg
      to p =
          elim (Option-cases (
            decompress_indexes env.bitvec proof.indices
              (required_bits (num_labels_of metadata init_cfg)))) [
                | inl e ↦ absurd (none_rejected e p)
                | inr (unpacked, u) ↦
                    elim (Result-cases
                      (proving_difficulty cfg.k1 (num_labels_of metadata init_cfg))) [
                        | inr (bad, d) ↦ absurd (bad_rejected unpacked bad u d p)
                        | inl (difficulty, d) ↦
                            let (values, it, t, passed) =
                              (indices_step unpacked difficulty u d).0 p in
                            (
                              unpacked,
                              values,
                              difficulty,
                              it,
                              u,
                              d,
                              t,
                              (passes_iff difficulty values (difficulty_fits difficulty h d)).0
                                  passed,
                            )
                      ]
              ]
