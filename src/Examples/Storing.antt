-- ===== src/Examples/Storing.antt =====
-- The second of two files, with labels 2 and 3, written and checked.
use post_rs.Base.{ℕ, ◌+◌, ◌*◌, min, ◌≡◌, refl, arith, List, [], ◌∷◌, ◌++◌, some, none}
use post_rs.Base.{length, take, replicate, range_from, All}
use post_rs.Base.Outcome.{Outcome, done}
use post_rs.Base.Words.{ilog2, log2_loop}
use post_rs.Config.{n_factor_of, factor_of, to_scrypt_factors}
use post_rs.Metadata.{
  PostMetadata, labels_in_file, num_files, total_labels, total_size, labels_in_last,
}
use post_rs.Initialize.{
  calc_commitment, Slice, slice_writer, label_of, labels_of, update_nonce, write_labels,
  initialize_to,
}
use post_rs.PosVerification.{VerificationError, Sampling, Verifies, sample_of}
use post_rs.PosVerification.Accept.{
  Matches, IsExplained, file_reader, offset_of, commitment_of, Verifies-IsExplained,
}
use post_rs.PosVerification.Written.{written-Verifies}
use post_rs.Examples.Crates.{blake3, f64}
use post_rs.Examples.Opening.{index_scrypt, gpu_laws, label_bytes}
use post_rs.Examples.Initializing.{params, factors, factors_run}

abbrev metadata : PostMetadata
metadata = record {
  node_id = replicate 32 1;
  commitment_atx_id = replicate 32 2;
  labels_per_unit = 4;
  num_units = 1;
  max_file_size = 32;
  nonce = none;
  last_position = none;
}

-- All the labels are chosen.
abbrev sampling : Sampling f64
sampling = record {
  mul = λ (a, b) (c, d). (a * c, b * d);
  hundred = (100, 1);
  choose_multiple = λ count amount. range_from 0 (min amount count);
  sorted = λ indices. indices;
}

abbrev everything : ℕ × ℕ
everything = (100, 1)

abbrev stored : Slice
stored = record { written = take 16 (label_bytes 2) ++ take 16 (label_bytes 3); room = 8 }

two_labels : labels_in_file f64 metadata 1 ≡ some 2
unfolding labels_in_file num_files total_size total_labels labels_in_last
two_labels = refl

stored_run :
    initialize_to slice_writer index_scrypt params
      (record { written = []; room = 40 })
      (commitment_of blake3 metadata)
      (record { start = offset_of metadata 1; end = offset_of metadata 1 + 2 })
      none
    ≡ done (stored, none)
unfolding initialize_to write_labels update_nonce labels_of to_scrypt_factors n_factor_of factor_of
    ilog2 log2_loop label_of calc_commitment
stored_run = refl

size32 : (i : ℕ) → length (label_of index_scrypt factors (commitment_of blake3 metadata) i) ≡ 32
size32 i = gpu_laws.length-label factors (commitment_of blake3 metadata) i

written-Verifies_example :
    Verifies blake3 index_scrypt f64 sampling file_reader
      (stored.written, 0)
      1
      everything
      metadata
      params
      (done tt)
    × ((r : Outcome VerificationError (Unit {0}))
        → Verifies blake3 index_scrypt f64 sampling file_reader
            (stored.written, 0)
            1
            everything
            metadata
            params
            r
        → r ≡ done tt)
written-Verifies_example =
    written-Verifies blake3 index_scrypt f64 sampling 0 1 everything metadata params factors 2 40
      none stored none factors_run size32 two_labels (omega arith, (omega arith, tt)) (omega arith)
      (omega arith) stored_run

-- The same file with its last byte changed.
abbrev damaged : List ℕ
damaged = take 31 stored.written ++ (9 ∷ [])

Verifies-IsExplained_example :
    (All
        (Matches
          (λ index.
            label_of index_scrypt factors
              (commitment_of blake3 metadata)
              (index + offset_of metadata 1))
          damaged)
        (sample_of f64 sampling everything 2)
      → Verifies blake3 index_scrypt f64 sampling file_reader
          (damaged, 0)
          1
          everything
          metadata
          params
          (done tt))
    × ((r : Outcome VerificationError (Unit {0}))
        → Verifies blake3 index_scrypt f64 sampling file_reader
            (damaged, 0)
            1
            everything
            metadata
            params
            r
        → IsExplained
            (λ index.
              label_of index_scrypt factors
                (commitment_of blake3 metadata)
                (index + offset_of metadata 1))
            damaged
            1
            (sample_of f64 sampling everything 2)
            r)
Verifies-IsExplained_example =
    Verifies-IsExplained blake3 index_scrypt f64 sampling damaged 0 1 everything metadata params
      factors 2 factors_run size32 two_labels (omega arith, (omega arith, tt)) (omega arith)
      (omega arith)
