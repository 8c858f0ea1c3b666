-- ===== src/Initialize/Label.antt =====
-- `generate_label` gives the first 16 bytes of the scrypt output.
use post_rs.Base.{
  ℕ, ◌+◌, ◌-◌, ◌^◌, ◌<◌, ◌≡◌, arith, none, some, List, [], ◌∷◌, length, take, length-take,
}
use post_rs.Base.Words.{u64}
use post_rs.Base.Outcome.{done}
use post_rs.Crates.{Scrypt}
use post_rs.Config.{ScryptFactors, ScryptParams, to_scrypt_factors}
use post_rs.Initialize.{
  slice_writer, label_of, labels_of, update_nonce, write_labels, initialize_to, generate_label,
}
use mathlib.Core.List.{append-nil}

module _ (scrypt : Scrypt) (params : ScryptParams) (factors : ScryptFactors)
    (commitment : List ℕ) where
  labels_of_one :
      (index : ℕ)
      → to_scrypt_factors params ≡ some factors
      → index + 1 < 2 ^ 64
      → labels_of scrypt params commitment (record { start = index; end = u64 (index + 1) })
        ≡ some (label_of scrypt factors commitment index ∷ [])
  unfolding labels_of
  labels_of_one index e h =
      let one : u64 (index + 1) - index ≡ 1 = omega arith in ground (arith, e, one)

  -- One label written to a slice of 16 bytes.
  pub initialize_to-one :
      (index : ℕ)
      → to_scrypt_factors params ≡ some factors
      → index + 1 < 2 ^ 64
      → length (label_of scrypt factors commitment index) ≡ 32
      → initialize_to slice_writer scrypt params
          (record { written = []; room = 16 })
          commitment
          (record { start = index; end = u64 (index + 1) })
          none
        ≡ done (
          record { written = take 16 (label_of scrypt factors commitment index); room = 0 },
          none,
        )
  unfolding initialize_to write_labels update_nonce
  initialize_to-one index e h l = ground (
    arith,
    labels_of_one index e h,
    length-take {0} 16 (label_of scrypt factors commitment index),
  )

  -- For scrypt parameters that convert, an index below 2 ^ 64 - 1, and a scrypt output of 32 bytes,
  -- `generate_label` does not panic, and gives the first 16 bytes of the output.
  pub generate_label_lem :
      (index : ℕ)
      → to_scrypt_factors params ≡ some factors
      → index + 1 < 2 ^ 64
      → length (label_of scrypt factors commitment index) ≡ 32
      → generate_label scrypt commitment params index
        ≡ some (take 16 (label_of scrypt factors commitment index))
  unfolding generate_label initialize_to write_labels update_nonce
  generate_label_lem index e h l = ground (
    arith,
    labels_of_one index e h,
    length-take {0} 16 (label_of scrypt factors commitment index),
    append-nil (take 16 (label_of scrypt factors commitment index)),
  )
