-- ===== src/Examples/Initializing.antt =====
-- Three labels written, the nonce found among them, and one label made again.
use post_rs.Base.{ℕ, ◌≡◌, refl, arith, List, [], ◌∷◌, ◌++◌, some, none, Option, map}
use post_rs.Base.{take, replicate, range_from}
use post_rs.Base.Bytes.{IsBytes, to_le_bytes, to_le_bytes-IsBytes}
use post_rs.Base.Words.{ilog2, log2_loop}
use post_rs.Base.Outcome.{done}
use post_rs.Config.{ScryptParams, ScryptFactors, n_factor_of, factor_of, to_scrypt_factors}
use post_rs.Prove.Nonces.{Range}
use post_rs.Initialize.{
  Slice, slice_writer, label_of, labels_of, update_nonce, write_labels, initialize_to,
}
use post_rs.Initialize.Nonce.{IsNonce, initialize_to-IsNonce}
use post_rs.Initialize.{calc_commitment, VrfNonce}
use post_rs.Initialize.Files.{Disk, file_writer, initialize}
use post_rs.Initialize.Files.Contents.{get_file}
use post_rs.Initialize.Files.Whole.{metadata_for, labels_in, initialize-labels_in}
use post_rs.Examples.Crates.{blake3, scrypt, replicate-IsBytes}

abbrev pub params : ScryptParams
params = record { n = 2; r = 1; p = 1 }

abbrev pub factors : ScryptFactors
factors = record { n_factor = 0; r_factor = 0; p_factor = 0 }

abbrev one_to_three : Range
one_to_three = record { start = 1; end = 4 }

abbrev label : ℕ → List ℕ
label index = to_le_bytes 32 index

abbrev room : Slice
room = record { written = []; room = 64 }

abbrev filled : Slice
filled = record {
  written = take 16 (label 1) ++ (take 16 (label 2) ++ take 16 (label 3));
  room = 16;
}

pub factors_run : to_scrypt_factors params ≡ some factors
unfolding to_scrypt_factors n_factor_of factor_of ilog2 log2_loop
factors_run = refl

labels_run : labels_of scrypt params [] one_to_three ≡ some (label 1 ∷ label 2 ∷ label 3 ∷ [])
unfolding labels_of to_scrypt_factors n_factor_of factor_of ilog2 log2_loop label_of
labels_run = refl

three_run :
    initialize_to slice_writer scrypt params room [] one_to_three (some (replicate 32 255))
    ≡ done (filled, some (record { index = 1; label = label 1 }))
unfolding initialize_to write_labels update_nonce labels_of to_scrypt_factors n_factor_of factor_of
    ilog2 log2_loop label_of
three_run = refl

all_high : IsBytes 32 (replicate 32 255)
all_high = replicate-IsBytes 32 255 (omega arith)

initialize_to-IsNonce_example :
    (label_list : List (List ℕ)) × (labels_of scrypt params [] one_to_three ≡ some label_list)
    × IsNonce 1 label_list (replicate 32 255) (some (record { index = 1; label = label 1 }))
initialize_to-IsNonce_example =
    initialize_to-IsNonce slice_writer scrypt params room filled [] one_to_three (replicate 32 255)
      (some (record { index = 1; label = label 1 })) (λ input salt f. to_le_bytes-IsBytes 32 _)
      all_high three_run

-- Five labels in files of two: the last of the three files has one.
initialize-labels_in_example :
    let commitment = calc_commitment blake3 (replicate 32 1) (replicate 32 2) in
    (disk : Disk) × (vrf_nonce : Option VrfNonce) × (initialize blake3
        (initialize_to file_writer scrypt params)
        (replicate 32 1)
        (replicate 32 2)
        5
        1
        2
        (some (replicate 32 255))
        (record { files = []; metadata = none; faults = [] })
      ≡ done (
        disk,
        metadata_for scrypt params factors factors_run blake3
            (replicate 32 1)
            (replicate 32 2)
            5
            1
            2
            vrf_nonce,
      ))
    × (disk.metadata
        ≡ some (
            metadata_for scrypt params factors factors_run blake3
              (replicate 32 1)
              (replicate 32 2)
              5
              1
              2
              vrf_nonce))
    × (get_file 2 disk.files
        ≡ some (labels_in scrypt params factors factors_run blake3 commitment 5 2 2))
    × IsNonce 0
        (map (label_of scrypt factors commitment) (range_from 0 5))
        (replicate 32 255)
        vrf_nonce
initialize-labels_in_example =
    initialize-labels_in scrypt params factors factors_run blake3 (replicate 32 1) (replicate 32 2)
      5 1 2 (replicate 32 255) [] none 2 (λ input salt factors. to_le_bytes-IsBytes 32 _)
      (replicate-IsBytes 32 255 (omega arith)) (omega arith) (omega arith) (omega arith)
