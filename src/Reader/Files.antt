-- ===== src/Reader/Files.antt =====
-- src/reader.rs: `pos_files`, which lists the files of a data directory, `read_data`, which reads
-- them one after another, and `read_from`. The directory is an interface.
pub mod Order
pub mod Row
use post_rs.Base.{ℕ, ◌+◌, ◌*◌, Option, none, some, List, [], ◌∷◌, ◌++◌, map}
use post_rs.Base.{concat, leb, if◌then◌else◌}
use post_rs.Base.Words.{u64}
use post_rs.Base.Outcome.{Outcome, done, failed, panicked, ◌>>=◌, expect}
use post_rs.Reader.{Read, Batch, BatchingReader, new_reader, batches}

pub data ReadError : Type 0 where
  reading_dir : ReadError
  opening_file : ReadError

module _ (read : Read) where
  open read use {R}

  -- A directory with its entries, each read or not; `none` for one that cannot be listed.
  pub record DataDir : Type 1 where
    pub Entry : Type 0
    pub read_dir : Option (List (Option Entry))
    -- The number in a name like `postdata_7.bin`, if it is one and is a u64: by the crate regex.
    pub file_id : Entry → Option ℕ
    pub open_file : Entry → Option R
    pub file_len : R → Option ℕ

  module _ (dir : DataDir) where
    open dir use {Entry, read_dir, file_id, open_file, file_len}

    -- The entries that can be read and have the name of a file with labels, with their numbers.
    unfoldable pub numbered : List (Option Entry) → List (ℕ × Entry)
    numbered [] = []
    numbered (none ∷ entries) = numbered entries
    numbered (some entry ∷ entries) =
        let rest = numbered entries in
        elim (file_id entry) [ none ↦ rest | some id ↦ (id, entry) ∷ rest ]

    unfoldable pub insert_by_id : ℕ × Entry → List (ℕ × Entry) → List (ℕ × Entry)
    insert_by_id (id, entry) [] = (id, entry) ∷ []
    insert_by_id (id, entry) ((other, file) ∷ files) =
        let rest = insert_by_id (id, entry) files in
        if leb id other then (id, entry) ∷ (other, file) ∷ files else (other, file) ∷ rest

    -- `sorted_by_key(|(id, _)| *id)`, which is stable.
    unfoldable pub sorted_by_id : List (ℕ × Entry) → List (ℕ × Entry)
    sorted_by_id [] = []
    sorted_by_id (file ∷ files) = insert_by_id file (sorted_by_id files)

    unfoldable pub pos_files : Outcome ReadError (List Entry)
    pos_files = elim read_dir [
      | none ↦ failed reading_dir
      | some entries ↦ done (map (λ f. f.1) (sorted_by_id (numbered entries)))
    ]

    -- The readers of the files from the one with the number `id` on. A length that is not the file
    -- size is only logged, but one that cannot be read is a panic.
    pub open_files : ℕ → ℕ → ℕ → List Entry → Outcome ReadError (List (BatchingReader read))
    open_files batch_size file_size id [] = done []
    open_files batch_size file_size id (entry ∷ entries) =
        let rest = open_files batch_size file_size (id + 1) entries in
        do
          file ← elim (open_file entry) [ none ↦ failed opening_file | some file ↦ done file ]
          pos_file_size ← expect (file_len file)
          readers ← rest
          done (new_reader read file (u64 (id * file_size)) batch_size file_size ∷ readers)

    -- `read_data`, up to its `flatten`.
    pub read_data : ℕ → ℕ → Outcome ReadError (List (BatchingReader read))
    read_data batch_size file_size = do files ← pos_files; open_files batch_size file_size 0 files

  -- The batches of `readers.into_iter().flatten()`, with the same fuel for each reader.
  pub flatten : ℕ → List (BatchingReader read) → List Batch
  flatten fuel readers = concat (map (batches read fuel) readers)

  pub read_from : R → ℕ → ℕ → BatchingReader read
  read_from reader batch_size max_size = new_reader read reader 0 batch_size max_size
