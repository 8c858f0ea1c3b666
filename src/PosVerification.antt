-- ===== src/PosVerification.antt =====
-- src/pos_verification.rs: the check of a fraction of the labels in the files. The labels are checked
-- in parallel, so which of several errors is returned is open: `Verifies` and `FilesRun` are relations
-- between the files and a result that they may have. The choice of the labels is the crate rand's.
pub mod Accept
pub mod Written
use post_rs.Base.{
  ℕ, zero, suc, ◌+◌, ◌-◌, ◌*◌, ◌/◌, ◌≡◌, ◌≢◌, Option, none, some, List, [], ◌∷◌, ◌++◌, map,
}
use post_rs.Base.{All, IsMember, replicate, range_from, if◌then◌else◌}
use post_rs.Base.Bytes.{eq_bytes}
use post_rs.Base.Words.{Result, ok, err, u64, sub64}
use post_rs.Base.Outcome.{Outcome, done, failed, panicked, ◌>>=◌}
use post_rs.Crates.{Blake3, Scrypt}
use post_rs.Config.{ScryptParams}
use post_rs.Metadata.{PostMetadata, F64, labels_in_file, num_files}
use post_rs.Initialize.{calc_commitment, Slice, slice_writer, initialize_to}

pub data VerificationError : Type 0 where
  invalid_label : ℕ → ℕ → VerificationError
  io : VerificationError
  unknown : VerificationError
  init_error : VerificationError

-- `Read + Seek`: what a call gives, and the reader after it. An error has no value here.
pub record SeekRead : Type 1 where
  pub R : Type 0
  pub seek : R → ℕ → Option (Unit {0}) × R
  pub read_exact : R → ℕ → Option (List ℕ) × R

-- The product of floating point numbers and 100.0, `choose_multiple` on a range from 0, and `sorted`.
pub record Sampling (f64 : F64) : Type 0 where
  pub mul : f64.Float → f64.Float → f64.Float
  pub hundred : f64.Float
  pub choose_multiple : ℕ → ℕ → List ℕ
  pub sorted : List ℕ → List ℕ

-- The indices of the labels to verify.
abbrev pub sample_of : (f64 : F64) → Sampling f64 → f64.Float → ℕ → List ℕ
sample_of f64 sampling fraction labels_count =
    let labels_to_verify =
      f64.to_usize (sampling.mul (f64.from_u64 labels_count) (f64.div fraction sampling.hundred)) in
    sampling.sorted (sampling.choose_multiple labels_count labels_to_verify)

-- The labels are read one after another.
pub read_labels : (reader : SeekRead) → reader.R → List ℕ → List (Option (ℕ × List ℕ))
read_labels reader r [] = []
read_labels reader r (index ∷ indices) =
    let (sought, r1) = reader.seek r (u64 (index * 16)) in
    let (label, r2) = reader.read_exact r1 16 in
    let after_seek = read_labels reader r1 indices in
    let after_read = read_labels reader r2 indices in
    elim sought [
      | none ↦ none ∷ after_seek
      | some _ ↦ elim label [
        | none ↦ none ∷ after_read
        | some bytes ↦ some (index, bytes) ∷ after_read
      ]
    ]

abbrev pub expected_room : Slice
expected_room = record { written = []; room = 16 }

-- One label against the one that the CPU initializer makes.
pub check_stored :
    Scrypt
    → ScryptParams
    → List ℕ
    → ℕ
    → ℕ
    → Option (ℕ × List ℕ)
    → Outcome VerificationError (Unit {0})
check_stored scrypt scrypt_params commitment file_idx labels_offset none = failed io
check_stored scrypt scrypt_params commitment file_idx labels_offset (some (index, label)) =
    let label_index = u64 (index + labels_offset) in
    elim (initialize_to slice_writer scrypt scrypt_params expected_room commitment
      (record { start = label_index; end = u64 (label_index + 1) }) none) [
        | panicked ↦ panicked
        | failed e ↦ failed init_error
        | done (w, nonce_found) ↦
            if eq_bytes label (w.written ++ replicate w.room 0)
            then done tt
            else failed (invalid_label file_idx (u64 (index * 16)))
      ]

-- `collect` of results that are made in parallel: all are fine, or one that is not is returned.
pub data Collects (items : List (Outcome VerificationError (Unit {0})))
    : Outcome VerificationError (Unit {0}) → Type 0 where
  collected : All (λ item. item ≡ done tt) items → Collects items (done tt)
  one_failed : {e : VerificationError} → IsMember (failed e) items → Collects items (failed e)
  one_panicked : IsMember panicked items → Collects items panicked

abbrev pub MayGive :
    Option (List (Outcome VerificationError (Unit {0})))
    → Outcome VerificationError (Unit {0})
    → Type 0
MayGive none r = r ≡ panicked
MayGive (some items) r = Collects items r

module _ (blake3 : Blake3) (scrypt : Scrypt) (f64 : F64) (sampling : Sampling f64)
    (reader : SeekRead) where
  -- The result of each label of the sample; `none` is a panic.
  pub stored_items :
      reader.R
      → ℕ
      → f64.Float
      → PostMetadata
      → ScryptParams
      → Option (List (Outcome VerificationError (Unit {0})))
  stored_items labels file_idx fraction metadata scrypt_params =
      let commitment = calc_commitment blake3 metadata.node_id metadata.commitment_atx_id in
      let labels_offset = u64 (file_idx * metadata.max_file_size) / 16 in
      elim (labels_in_file f64 metadata file_idx) [
        | none ↦ none
        | some labels_count ↦ some (
            map (check_stored scrypt scrypt_params commitment file_idx labels_offset)
              (read_labels reader labels (sample_of f64 sampling fraction labels_count)))
      ]

  -- `verify`
  pub Verifies :
      reader.R
      → ℕ
      → f64.Float
      → PostMetadata
      → ScryptParams
      → Outcome VerificationError (Unit {0})
      → Type 0
  Verifies labels file_idx fraction metadata scrypt_params r =
      MayGive (stored_items labels file_idx fraction metadata scrypt_params) r

  -- The loop of `verify_files` over the numbers of the files, which are opened one by one.
  pub data FilesRun (open_file : ℕ → Option reader.R) (fraction : f64.Float)
      (metadata : PostMetadata) (scrypt_params : ScryptParams)
      : List ℕ → Outcome VerificationError (Unit {0}) → Type 0 where
    no_files : FilesRun open_file fraction metadata scrypt_params [] (done tt)
    not_opened :
        {idx : ℕ} {rest : List ℕ}
        → open_file idx ≡ none
        → FilesRun open_file fraction metadata scrypt_params (idx ∷ rest) (failed io)
    file_fails :
        {idx : ℕ} {rest : List ℕ} {labels : reader.R} {r : Outcome VerificationError (Unit {0})}
        → open_file idx ≡ some labels
        → Verifies labels idx fraction metadata scrypt_params r
        → r ≢ done tt
        → FilesRun open_file fraction metadata scrypt_params (idx ∷ rest) r
    file_passes :
        {idx : ℕ} {rest : List ℕ} {labels : reader.R} {r : Outcome VerificationError (Unit {0})}
        → open_file idx ≡ some labels
        → Verifies labels idx fraction metadata scrypt_params (done tt)
        → FilesRun open_file fraction metadata scrypt_params rest r
        → FilesRun open_file fraction metadata scrypt_params (idx ∷ rest) r

  -- `verify_files`, on the metadata that was loaded, or not.
  pub VerifiesFiles :
      (ℕ → Option reader.R)
      → f64.Float
      → Option PostMetadata
      → Option ℕ
      → Option ℕ
      → ScryptParams
      → Outcome VerificationError (Unit {0})
      → Type 0
  VerifiesFiles open_file fraction none from_file to_file scrypt_params r = r ≡ failed unknown
  VerifiesFiles open_file fraction (some metadata) from_file to_file scrypt_params r =
      let first : ℕ = elim from_file [ none ↦ 0 | some idx ↦ idx ] in
      let last : ℕ = elim to_file [ none ↦ sub64 (num_files f64 metadata) 1 | some idx ↦ idx ] in
      FilesRun open_file fraction metadata scrypt_params (range_from first (last + 1 - first)) r
