-- ===== src/Initialize/Files/Whole.antt =====
-- The files of `initialize` hold the labels in order, and its nonce is that of all labels.
use post_rs.Base.{
  ℕ, zero, suc, ◌+◌, ◌-◌, ◌*◌, ◌%◌, ◌^◌, ◌<◌, ◌≤◌, ◌≡◌, ◌∙◌, refl, sym, ap, arith, inl, inr, false,
  Option, none, some, List, map, min,
}
use post_rs.Base.{take, concat, range_from, ◌==◌, Bool-cases}
use post_rs.Base.{All}
use post_rs.Base.Bytes.{IsBytes}
use post_rs.Base.Words.{u64}
use post_rs.Base.Arith.{next_place}
use post_rs.Base.Outcome.{done}
use post_rs.Crates.{Blake3, Scrypt}
use post_rs.Config.{ScryptParams, ScryptFactors, to_scrypt_factors}
use post_rs.Metadata.{PostMetadata}
use post_rs.Initialize.{calc_commitment, VrfNonce, label_of, initialize_to}
use post_rs.Initialize.Nonce.{best, best-IsNonce, IsNonce, All-labels}
use post_rs.Initialize.Files.{Disk, io, file_writer, write_metadata, files_number, initialize}
use post_rs.Initialize.Files.Pieces.{piece_file}
use post_rs.Initialize.Files.Contents.{
  get_file, disk_of, file_bytes, files_after, best_of_files, write_files-done, get_file-files_after,
}
use mathlib.Core.Path.{subst}
use native.Mathlib.Nat.{div-add-mod, mod-lt}

module _ (scrypt : Scrypt) (params : ScryptParams) (factors : ScryptFactors)
    (converts : to_scrypt_factors params ≡ some factors) (blake3 : Blake3) (commitment : List ℕ)
    (total_labels labels_per_file : ℕ) where
  -- The best of the labels up to an index.
  abbrev best_upto : ℕ → Option VrfNonce × Option (List ℕ) → Option VrfNonce × Option (List ℕ)
  best_upto n vrf = best 0 (map (label_of scrypt factors commitment) (range_from 0 n)) vrf

  best_of_files-upto :
      (count id : ℕ) (vrf : Option VrfNonce × Option (List ℕ))
      → (id + count) * labels_per_file < 2 ^ 64
      → best_of_files scrypt params factors converts blake3 commitment total_labels labels_per_file
          count id
          (best_upto (min total_labels (id * labels_per_file)) vrf)
        ≡ best_upto (min total_labels ((id + count) * labels_per_file)) vrf
  unfolding best_of_files
  best_of_files-upto zero id vrf fits =
      let e : id * labels_per_file ≡ (id + 0) * labels_per_file =
        ap (λ (n : ℕ). n * labels_per_file) (omega arith) in
      ap (λ (n : ℕ). best_upto (min total_labels n) vrf) e
  best_of_files-upto (suc count) id vrf fits =
      let (now, later, step) = next_place id count labels_per_file fits in
      let same : (id + 1 + count) * labels_per_file ≡ (id + suc count) * labels_per_file =
        (let e : id + 1 + count ≡ id + suc count = omega arith in
          ap (λ (n : ℕ). n * labels_per_file) e) in
      ap
        (best_of_files scrypt params factors converts blake3 commitment total_labels labels_per_file
          count (id + 1))
        (piece_file (label_of scrypt factors commitment) vrf (id * labels_per_file) labels_per_file
            total_labels now
          ∙ ap (λ (n : ℕ). best_upto (min total_labels n) vrf) (sym step))
      ∙ best_of_files-upto count (id + 1) vrf later
      ∙ ap (λ (n : ℕ). best_upto (min total_labels n) vrf) same

  all_files :
      (count : ℕ) (difficulty : Option (List ℕ))
      → count * labels_per_file < 2 ^ 64
      → total_labels ≤ count * labels_per_file
      → (best_of_files scrypt params factors converts blake3 commitment total_labels labels_per_file
          count 0
          (none, difficulty))
        ≡ best_upto total_labels (none, difficulty)
  all_files count difficulty fits enough =
      let start : 0 ≡ min total_labels (0 * labels_per_file) = omega arith in
      let whole : (0 + count) * labels_per_file ≡ count * labels_per_file =
        (let e : 0 + count ≡ count = omega arith in ap (λ (n : ℕ). n * labels_per_file) e) in
      let end : min total_labels ((0 + count) * labels_per_file) ≡ total_labels =
        omega (arith, whole, enough) in
      ap
        (best_of_files scrypt params factors converts blake3 commitment total_labels labels_per_file
          count 0)
        (empty ∙ ap (λ (n : ℕ). best_upto n (none, difficulty)) start)
      ∙ best_of_files-upto count 0 (none, difficulty) (omega (arith, whole, fits))
      ∙ ap (λ (n : ℕ). best_upto n (none, difficulty)) end
    where
      empty : (none, difficulty) ≡ best_upto 0 (none, difficulty)
      empty = unfold best in refl

number_enough :
    (total labels_per_file : ℕ)
    → 0 < labels_per_file
    → total ≤ files_number total labels_per_file * labels_per_file
number_enough total labels_per_file h =
    let whole = div-add-mod total labels_per_file in
    let part = mod-lt total h in
    elim (Bool-cases (total % labels_per_file == 0)) [
      | inl even ↦
          let none_left : total % labels_per_file ≡ 0 = ground (arith, even) in
          rw even (omega (arith, whole, none_left))
      | inr odd ↦ rw odd (grind (arith, whole, part))
    ]

module _ (scrypt : Scrypt) (params : ScryptParams) (factors : ScryptFactors)
    (converts : to_scrypt_factors params ≡ some factors) (blake3 : Blake3) where
  -- The metadata for a nonce.
  abbrev pub metadata_for : List ℕ → List ℕ → ℕ → ℕ → ℕ → Option VrfNonce → PostMetadata
  metadata_for node_id commitment_atx_id labels_per_unit num_units labels_per_file vrf_nonce =
      record {
        node_id = node_id;
        commitment_atx_id = commitment_atx_id;
        labels_per_unit = labels_per_unit;
        num_units = num_units;
        max_file_size = u64 (labels_per_file * 16);
        nonce = elim vrf_nonce [ none ↦ none | some n ↦ some n.index ];
        last_position = none;
      }

  initialize-done :
      (node_id commitment_atx_id : List ℕ) (labels_per_unit num_units labels_per_file : ℕ)
      (vrf_difficulty : Option (List ℕ)) (files : List (ℕ × List ℕ)) (was : Option PostMetadata)
      → 0 < labels_per_file
      → let commitment = calc_commitment blake3 node_id commitment_atx_id in
        let total_labels = u64 (labels_per_unit * num_units) in
        let count = files_number total_labels labels_per_file in
        let metadata =
          metadata_for node_id commitment_atx_id labels_per_unit num_units labels_per_file
            (best_of_files scrypt params factors converts blake3 commitment total_labels
              labels_per_file count 0
              (none, vrf_difficulty)).0 in
        initialize blake3
          (initialize_to file_writer scrypt params)
          node_id
          commitment_atx_id
          labels_per_unit
          num_units
          labels_per_file
          vrf_difficulty
          (disk_of files was)
        ≡ done (
          disk_of
              (files_after scrypt params factors converts blake3 commitment total_labels
                labels_per_file count 0 files)
              (some metadata),
          metadata,
        )
  unfolding initialize io write_metadata
  initialize-done node_id commitment_atx_id labels_per_unit num_units labels_per_file vrf_difficulty
        files was h =
      let commitment = calc_commitment blake3 node_id commitment_atx_id in
      let total_labels = u64 (labels_per_unit * num_units) in
      let count = files_number total_labels labels_per_file in
      let some_labels : (labels_per_file == 0) ≡ false = ground (arith, h) in
      let written =
        write_files-done scrypt params factors converts blake3 commitment total_labels
          labels_per_file count 0 (none, vrf_difficulty) files was in
      rw (some_labels, written) refl

  -- A file of labels by its number: each label's first 16 bytes, in order.
  abbrev pub labels_in : List ℕ → ℕ → ℕ → ℕ → List ℕ
  labels_in commitment total_labels labels_per_file id =
      let start = id * labels_per_file in
      let end = min total_labels (start + labels_per_file) in
      concat
        (map (take 16) (map (label_of scrypt factors commitment) (range_from start (end - start))))

  file_bytes-labels_in :
      (commitment : List ℕ) (total_labels labels_per_file count k : ℕ)
      → k < count
      → count * labels_per_file < 2 ^ 64
      → file_bytes scrypt params factors converts blake3 commitment total_labels labels_per_file k
        ≡ labels_in commitment total_labels labels_per_file k
  file_bytes-labels_in commitment total_labels labels_per_file count k h fits =
      let n : ℕ = count - suc k in
      let rest : k + suc n ≡ count = omega (arith, h) in
      let (now, _, _) =
        next_place k n labels_per_file
          (omega (arith, ap (λ (m : ℕ). m * labels_per_file) rest, fits)) in
      let p : ℕ = k * labels_per_file in
      let start : u64 p ≡ p = omega (arith, now) in
      let end : u64 (u64 p + labels_per_file) ≡ p + labels_per_file = omega (arith, now) in
      ap (λ (m : ℕ). bytes_between (u64 p) (min total_labels m)) end
      ∙ ap (λ (m : ℕ). bytes_between m (min total_labels (p + labels_per_file))) start
    where
      bytes_between : ℕ → ℕ → List ℕ
      bytes_between start end = concat (
          map (take 16) (map (label_of scrypt factors commitment) (range_from start (end - start))))

  -- On a disk without faults, for scrypt parameters that convert, files of at least one label, whose
  -- labels are counted in 64 bits, and a VRF difficulty of 32 bytes: `initialize` on the CPU succeeds
  -- and stores the metadata that it returns. Each file then holds the first 16 bytes of each of its
  -- labels, those from its number times the labels per file on; and the nonce in the metadata is the
  -- index of the first of the least of all labels, if any is below the difficulty, and `none` if none is.
  -- Scrypt gives 32 bytes.
  pub initialize-labels_in :
      (node_id commitment_atx_id : List ℕ) (labels_per_unit num_units labels_per_file : ℕ)
      (difficulty : List ℕ) (files : List (ℕ × List ℕ)) (was : Option PostMetadata) (k : ℕ)
      → ((input salt : List ℕ) (factors : ScryptFactors)
          → IsBytes 32 (scrypt.scrypt input salt factors 32))
      → IsBytes 32 difficulty
      → 0 < labels_per_file
      → files_number (u64 (labels_per_unit * num_units)) labels_per_file * labels_per_file < 2 ^ 64
      → k < files_number (u64 (labels_per_unit * num_units)) labels_per_file
      → let commitment = calc_commitment blake3 node_id commitment_atx_id in
        let total_labels = u64 (labels_per_unit * num_units) in
        (disk : Disk) × (vrf_nonce : Option VrfNonce) × (initialize blake3
            (initialize_to file_writer scrypt params)
            node_id
            commitment_atx_id
            labels_per_unit
            num_units
            labels_per_file
            (some difficulty)
            (disk_of files was)
          ≡ done (
            disk,
            metadata_for node_id commitment_atx_id labels_per_unit num_units labels_per_file
                vrf_nonce,
          ))
        × (disk.metadata
            ≡ some (
                metadata_for node_id commitment_atx_id labels_per_unit num_units labels_per_file
                  vrf_nonce))
        × (get_file k disk.files ≡ some (labels_in commitment total_labels labels_per_file k))
        × IsNonce 0
            (map (label_of scrypt factors commitment) (range_from 0 total_labels))
            difficulty
            vrf_nonce
  initialize-labels_in node_id commitment_atx_id labels_per_unit num_units labels_per_file
        difficulty files was k bytes hd h fits hk =
      let commitment = calc_commitment blake3 node_id commitment_atx_id in
      let total_labels = u64 (labels_per_unit * num_units) in
      let count = files_number total_labels labels_per_file in
      let last =
        all_files scrypt params factors converts blake3 commitment total_labels labels_per_file
          count (some difficulty) fits (number_enough total_labels labels_per_file h) in
      (
        _,
        _,
        initialize-done node_id commitment_atx_id labels_per_unit num_units labels_per_file
            (some difficulty) files was h,
        refl,
        get_file-files_after scrypt params factors converts blake3 commitment total_labels
              labels_per_file count 0 k files (omega arith) (omega (arith, hk))
            ∙ ap some
                (file_bytes-labels_in commitment total_labels labels_per_file count k hk fits),
        subst
            (IsNonce 0 (map (label_of scrypt factors commitment) (range_from 0 total_labels))
              difficulty)
            (sym (ap (λ v. v.0) last))
            (best-IsNonce 0 (map (label_of scrypt factors commitment) (range_from 0 total_labels))
              difficulty hd (labels-IsBytes commitment 0 total_labels bytes)),
      )
    where
      labels-IsBytes :
          (commitment : List ℕ) (start count : ℕ)
          → ((input salt : List ℕ) (factors : ScryptFactors)
              → IsBytes 32 (scrypt.scrypt input salt factors 32))
          → All (IsBytes 32) (map (label_of scrypt factors commitment) (range_from start count))
      labels-IsBytes commitment start count bytes =
          All-labels _ (IsBytes 32) start count (λ i. unfold label_of in bytes _ _ _)
