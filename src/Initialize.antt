-- ===== src/Initialize.antt =====
-- src/initialize.rs: `calc_commitment`, `CpuInitializer` and `generate_label`. The parallel map
-- over the labels, collected to a vector, is a map. Indices are u64 and wrap.
pub mod Files
pub mod Nonce
pub mod Label
use post_rs.Base.{ℕ, zero, suc, ◌+◌, ◌-◌, Bool, Option, none, some, List, [], ◌∷◌, ◌++◌}
use post_rs.Base.{length, take, map, replicate, range_from, leb, ◌==◌, if◌then◌else◌}
use post_rs.Base.Bytes.{to_le_bytes, lex_lt}
use post_rs.Base.Words.{Result, ok, err, u64}
use post_rs.Base.Outcome.{Outcome, done, failed, panicked, ◌>>=◌, lift, expect}
use post_rs.Config.{ScryptParams, ScryptFactors, to_scrypt_factors}
use post_rs.Crates.{Blake3, Scrypt}
use post_rs.Prove.Nonces.{Range}

abbrev pub label_size : ℕ
label_size = 16

abbrev pub entire_label_size : ℕ
entire_label_size = 32

unfoldable pub calc_commitment : Blake3 → List ℕ → List ℕ → List ℕ
calc_commitment blake3 node_id commitment_atx_id =
    let hasher = blake3.update blake3.new node_id in
    let hasher = blake3.update hasher commitment_atx_id in blake3.finalize hasher

pub record VrfNonce : Type 0 where
  pub index : ℕ
  pub label : List ℕ

-- `std::io::Write`: a writer after `write_all`, or the error.
pub record Writer (E : Type 0) : Type 1 where
  pub W : Type 0
  pub write_all : W → List ℕ → Result E W

module _ (scrypt : Scrypt) where
  -- The 32 bytes of the label with this index.
  unfoldable pub label_of : ScryptFactors → List ℕ → ℕ → List ℕ
  label_of factors commitment index =
      scrypt.scrypt (commitment ++ (to_le_bytes 8 index ++ replicate 32 0)) [] factors
        entire_label_size

  -- The labels of a range; the parameters are converted, which may panic, for each label.
  unfoldable pub labels_of : ScryptParams → List ℕ → Range → Option (List (List ℕ))
  labels_of params commitment labels =
      let count = labels.end - labels.start in
      elim (to_scrypt_factors params) [
        | none ↦ if count == 0 then some [] else none
        | some factors ↦ some (map (label_of factors commitment) (range_from labels.start count))
      ]

-- One label against the VRF difficulty: the best nonce so far and the new difficulty.
unfoldable pub update_nonce :
    ℕ → List ℕ → Option VrfNonce × Option (List ℕ) → Option VrfNonce × Option (List ℕ)
update_nonce index label (best_nonce, vrf_difficulty) = elim vrf_difficulty [
  | none ↦ (best_nonce, none)
  | some difficulty ↦
      if lex_lt label difficulty
      then (some (record { index = index; label = label }), some label)
      else (best_nonce, some difficulty)
]

module _ {E : Type 0} (writer : Writer E) where
  open writer use {W, write_all}

  -- The loop of `initialize_to` over the labels, from index `index` on.
  unfoldable pub write_labels :
      ℕ → List (List ℕ) → Option VrfNonce × Option (List ℕ) → W → Outcome E (W × Option VrfNonce)
  write_labels index [] (best_nonce, vrf_difficulty) w = done (w, best_nonce)
  write_labels index (label ∷ labels) vrf w = do
    w' ← lift (write_all w (take label_size label))
    write_labels (index + 1) labels (update_nonce index label vrf) w'

  -- `CpuInitializer::initialize_to`
  unfoldable pub initialize_to :
      Scrypt → ScryptParams → W → List ℕ → Range → Option (List ℕ) → Outcome E (W × Option VrfNonce)
  initialize_to scrypt params w commitment labels vrf_difficulty = do
    label_list ← expect (labels_of scrypt params commitment labels)
    write_labels labels.start label_list (none, vrf_difficulty) w

-- A `&mut [u8]` as a writer: what is written, and the room that is left.
pub record Slice : Type 0 where
  pub written : List ℕ
  pub room : ℕ

pub data SliceError : Type 0 where
  write_zero : SliceError

abbrev pub slice_writer : Writer SliceError
slice_writer = record {
  W = Slice;
  write_all = λ w bytes.
      if leb (length bytes) w.room
      then ok (record { written = w.written ++ bytes; room = w.room - length bytes })
      else err write_zero;
}

-- `generate_label`; `none` is a panic.
pub generate_label : Scrypt → List ℕ → ScryptParams → ℕ → Option (List ℕ)
generate_label scrypt commitment params index =
    elim (initialize_to slice_writer scrypt params (record { written = []; room = label_size })
      commitment (record { start = index; end = u64 (index + 1) }) none) [
        | done (w, vrf_nonce) ↦ some (w.written ++ replicate w.room 0)
        | failed e ↦ none
        | panicked ↦ none
      ]
