-- ===== src/Examples/Packing.antt =====
-- Packed indices, the layout of files and the parameters of scrypt, on small inputs.
use post_rs.Base.{
  ℕ, suc, ◌*◌, ◌^◌, ◌<◌, ◌≤◌, ◌≡◌, ◌↔◌, ◌-◌, ◌/◌, refl, arith, List, [], ◌∷◌, some, none, min,
}
use post_rs.Base.{length, take}
use post_rs.Compression.{compress_indices, decompress_indexes, required_bits}
use post_rs.Compression.RoundTrip.{decompress-compress}
use post_rs.Compression.Required.{required_bits-le_iff}
use post_rs.Verification.{expected_indices_bytes}
use post_rs.Verification.Length.{length-compress_indices-expected_indices_bytes}
use post_rs.Metadata.{PostMetadata, total_labels, labels_in_file}
use post_rs.Metadata.Layout.{IsLaidOut, labels_in_file_lem}
use post_rs.Base.Words.{is_power_of_two, ilog2, log2_loop}
use post_rs.Config.{ScryptParams, ScryptFactors, new_scrypt_params, to_scrypt_factors}
use post_rs.Config.Laws.{to_scrypt_factors-new_scrypt_params}
use post_rs.Examples.Crates.{f64, f64_laws}
use post_rs.Examples.Bits.{bitvec, bitvec_laws}

abbrev three_indices : List ℕ
three_indices = 5 ∷ 0 ∷ 7 ∷ []

decompress-compress_example :
    (bytes unpacked : List ℕ) × (compress_indices bitvec three_indices 3 ≡ some bytes)
    × (decompress_indexes bitvec bytes 3 ≡ some unpacked)
    × (take (length three_indices) unpacked ≡ three_indices)
decompress-compress_example =
    decompress-compress bitvec bitvec_laws three_indices 3 (omega arith) (omega arith)
      (omega arith, (omega arith, (omega arith, tt)))

length-compress_indices-expected_indices_bytes_example :
    (bytes : List ℕ) × (compress_indices bitvec three_indices 3 ≡ some bytes)
    × (length bytes ≡ expected_indices_bytes 3 (length three_indices))
length-compress_indices-expected_indices_bytes_example =
    length-compress_indices-expected_indices_bytes bitvec bitvec_laws three_indices 3 (omega arith)

required_bits-le_iff_example : (required_bits 1000 ≤ 10) ↔ (1000 < 2 ^ 10)
required_bits-le_iff_example = required_bits-le_iff 1000 10 (omega arith)

-- Five labels in files of two.
abbrev five_labels : PostMetadata
five_labels = record {
  node_id = [];
  commitment_atx_id = [];
  labels_per_unit = 5;
  num_units = 1;
  max_file_size = 32;
  nonce = none;
  last_position = none;
}

five_labels-IsLaidOut : IsLaidOut five_labels
five_labels-IsLaidOut = record {
  whole = omega arith;
  pos = omega arith;
  file_fits = omega arith;
  some_labels = omega arith;
  fits = omega arith;
}

labels_in_file_lem_example :
    labels_in_file f64 five_labels 2
    ≡ some (
        min
          (five_labels.max_file_size / 16)
          (total_labels five_labels - 2 * (five_labels.max_file_size / 16)))
labels_in_file_lem_example = labels_in_file_lem f64 f64_laws five_labels 2 five_labels-IsLaidOut

abbrev scrypt_8192 : ScryptParams
scrypt_8192 = record { n = 8192; r = 1; p = 1 }

new_8192 : new_scrypt_params 8192 1 1 ≡ some scrypt_8192
unfolding new_scrypt_params is_power_of_two ilog2 log2_loop
new_8192 = refl

to_scrypt_factors-new_scrypt_params_example :
    (f : ScryptFactors) × (to_scrypt_factors scrypt_8192 ≡ some f)
    × (2 ^ suc f.n_factor ≡ 8192)
    × (2 ^ f.r_factor ≡ 1)
    × (2 ^ f.p_factor ≡ 1)
to_scrypt_factors-new_scrypt_params_example =
    to_scrypt_factors-new_scrypt_params 8192 1 1 (omega arith) (omega arith) (omega arith) new_8192
