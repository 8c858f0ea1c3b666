-- ===== src/Initialize/Files.antt =====
-- src/initialize.rs: `Initialize::initialize`, which splits the labels into files.
pub mod Contents
pub mod Pieces
pub mod Whole
use post_rs.Base.{
  ℕ, zero, suc, ◌+◌, ◌*◌, ◌/◌, ◌%◌, Bool, true, false, Option, none, some, List, [], ◌∷◌, ◌++◌, min,
}
use post_rs.Base.{◌==◌, if◌then◌else◌}
use post_rs.Base.Words.{Result, ok, err, u64}
use post_rs.Base.Outcome.{Outcome, done, panicked, ◌>>=◌, lift}
use post_rs.Crates.{Blake3}
use post_rs.Metadata.{PostMetadata}
use post_rs.Prove.Nonces.{Range}
use post_rs.Initialize.{calc_commitment, VrfNonce, Writer}

pub data IoError : Type 0 where
  io_error : IoError

-- The data directory: the files by their number, the metadata file, and for each operation to
-- come whether it fails (none of them, where the list is at its end).
pub record Disk : Type 0 where
  pub files : List (ℕ × List ℕ)
  pub metadata : Option PostMetadata
  pub faults : List Bool

pub io : Disk → Result IoError Disk
io disk = elim disk.faults [
  | [] ↦ ok disk
  | true ∷ faults ↦ err io_error
  | false ∷ faults ↦ ok (record disk { faults = faults })
]

pub put_file : ℕ → List ℕ → List (ℕ × List ℕ) → List (ℕ × List ℕ)
put_file id bytes [] = (id, bytes) ∷ []
put_file id bytes ((other, old) ∷ files) =
    if id == other then (id, bytes) ∷ files else (other, old) ∷ put_file id bytes files

pub append_file : ℕ → List ℕ → List (ℕ × List ℕ) → List (ℕ × List ℕ)
append_file id bytes [] = []
append_file id bytes ((other, old) ∷ files) =
    if id == other then (other, old ++ bytes) ∷ files else (other, old) ∷ append_file id bytes files

-- `File::create`, which empties a file that is there.
pub create_file : ℕ → Disk → Result IoError Disk
create_file id disk = elim (io disk) [
  | err e ↦ err e
  | ok disk ↦ ok (record disk { files = put_file id [] disk.files })
]

-- An open file as a writer.
pub write_file : ℕ × Disk → List ℕ → Result IoError (ℕ × Disk)
write_file (id, disk) bytes = elim (io disk) [
  | err e ↦ err e
  | ok disk ↦ ok (id, record disk { files = append_file id bytes disk.files })
]

abbrev pub file_writer : Writer IoError
file_writer = record { W = ℕ × Disk; write_all = write_file }

pub write_metadata : PostMetadata → Disk → Result IoError Disk
write_metadata metadata disk = elim (io disk) [
  | err e ↦ err e
  | ok disk ↦ ok (record disk { metadata = some metadata })
]

-- `initialize_to` of the type that implements the trait, on an open file.
abbrev pub InitializeTo : Type 0
InitializeTo =
    ℕ × Disk → List ℕ → Range → Option (List ℕ) → Outcome IoError ((ℕ × Disk) × Option VrfNonce)

-- A nonce found in one file sets the difficulty for the next.
abbrev pub next_vrf :
    Option VrfNonce → Option VrfNonce × Option (List ℕ) → Option VrfNonce × Option (List ℕ)
next_vrf none vrf = vrf
next_vrf (some n) vrf = (some n, some n.label)

abbrev pub files_number : ℕ → ℕ → ℕ
files_number total_labels labels_per_file =
    if total_labels % labels_per_file == 0
    then total_labels / labels_per_file
    else total_labels / labels_per_file + 1

module _ (blake3 : Blake3) (initialize_to : InitializeTo) where
  -- The loop over the files: `count` of them, from `file_id` on.
  pub write_files :
      ℕ
      → ℕ
      → ℕ
      → ℕ
      → List ℕ
      → Option VrfNonce × Option (List ℕ)
      → Disk
      → Outcome IoError (Disk × Option VrfNonce)
  write_files zero file_id total_labels labels_per_file commitment (nonce, vrf_difficulty) disk =
      done (disk, nonce)
  write_files (suc count) file_id total_labels labels_per_file commitment (nonce, vrf_difficulty)
        disk =
      do
        disk ← lift (create_file file_id disk)
        let index = u64 (file_id * labels_per_file)
        let labels : Range = record {
          start = index;
          end = min total_labels (u64 (index + labels_per_file));
        }
        ((id, disk), new_nonce) ← initialize_to (file_id, disk) commitment labels vrf_difficulty
        write_files count (file_id + 1) total_labels labels_per_file commitment
            (next_vrf new_nonce (nonce, vrf_difficulty)) disk

  -- `Initialize::initialize`; it panics on a division by 0.
  pub initialize :
      List ℕ → List ℕ → ℕ → ℕ → ℕ → Option (List ℕ) → Disk → Outcome IoError (Disk × PostMetadata)
  initialize node_id commitment_atx_id labels_per_unit num_units labels_per_file vrf_difficulty
        disk =
      do
        disk ← lift (io disk)
        let commitment = calc_commitment blake3 node_id commitment_atx_id
        let total_labels = u64 (labels_per_unit * num_units)
        (disk, nonce) ←
            (if labels_per_file == 0
              then panicked
              else write_files (files_number total_labels labels_per_file) 0 total_labels
                  labels_per_file commitment (none, vrf_difficulty) disk)
        let metadata : PostMetadata = record {
          node_id = node_id;
          commitment_atx_id = commitment_atx_id;
          labels_per_unit = labels_per_unit;
          num_units = num_units;
          max_file_size = u64 (labels_per_file * 16);
          nonce = elim nonce [ none ↦ none | some n ↦ some n.index ];
          last_position = none;
        }
        disk ← lift (io disk)
        disk ← lift (write_metadata metadata disk)
        done (disk, metadata)
