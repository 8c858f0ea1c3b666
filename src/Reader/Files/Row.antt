-- ===== src/Reader/Files/Row.antt =====
-- The batches of the files of a directory are its data.
use post_rs.Base.{
  ℕ, zero, suc, ◌+◌, ◌*◌, ◌^◌, ◌<◌, ◌≤◌, ◌≡◌, ◌∙◌, refl, sym, ap, arith, Option, some, List, [],
  ◌∷◌, ◌++◌, map,
}
use post_rs.Base.{length, take, concat, All, length-append}
use post_rs.Base.Arith.{next_place}
use post_rs.Base.Words.{u64}
use post_rs.Base.Outcome.{Outcome, done}
use post_rs.Reader.{bytes_reader, Batch, BatchingReader, new_reader, batches}
use post_rs.Reader.Whole.{contents, AreInARow, batches_lem}
use post_rs.Reader.Files.{ReadError, DataDir, pos_files, open_files, read_data, flatten}
use post_rs.Reader.Files.Order.{IsListing, pos_files-IsListing}
use mathlib.Core.Path.{subst, ap₂}
use mathlib.Core.List.{append_assoc}

contents-append : (xs ys : List Batch) → contents (xs ++ ys) ≡ contents xs ++ contents ys
contents-append [] ys = refl
contents-append (b ∷ xs) ys =
    ap (◌++◌ b.data_bytes) (contents-append xs ys)
    ∙ sym (append_assoc b.data_bytes (contents xs) (contents ys))

AreInARow-append :
    (batch_size pos : ℕ) (xs ys : List Batch)
    → AreInARow batch_size pos xs
    → AreInARow batch_size (pos + length (contents xs)) ys
    → AreInARow batch_size pos (xs ++ ys)
AreInARow-append batch_size pos [] ys h hs =
    let e : pos + 0 ≡ pos = omega arith in subst (λ p. AreInARow batch_size p ys) e hs
AreInARow-append batch_size pos (b ∷ xs) ys h hs =
    let e : pos + length (b.data_bytes ++ contents xs)
        ≡ pos + length b.data_bytes + length (contents xs) =
      omega (arith, length-append b.data_bytes (contents xs)) in
    let (at, some_read, short, row) = h in
    (
      at,
      some_read,
      short,
      AreInARow-append batch_size (pos + length b.data_bytes) xs ys row
          (subst (λ p. AreInARow batch_size p ys) e hs),
    )

take_all : (n : ℕ) (xs : List ℕ) → length xs ≤ n → take n xs ≡ xs
take_all zero [] h = refl
take_all (suc n) [] h = refl
take_all zero (x ∷ xs) h = absurd (omega arith)
take_all (suc n) (x ∷ xs) h = ap (◌∷◌ x) (take_all n xs (omega arith))

-- All files but the last have the file size, and the last at most that.
abbrev pub AreLaidOut : ℕ → List (List ℕ) → Type 0
AreLaidOut file_size [] = Unit
AreLaidOut file_size (bytes ∷ []) = (length bytes ≤ file_size) × Unit {0}
AreLaidOut file_size (bytes ∷ next ∷ rest) =
    (length bytes ≡ file_size) × AreLaidOut file_size (next ∷ rest)

module _ (dir : DataDir bytes_reader) (content : dir.Entry → List ℕ) (batch_size file_size fuel : ℕ)
    (some_bytes : 0 < batch_size) (enough : file_size < fuel) where
  -- A file that can be opened, with its content.
  abbrev pub IsReadable : dir.Entry → Type 0
  IsReadable entry =
      (dir.open_file entry ≡ some (content entry))
      × (dir.file_len (content entry) ≡ some (length (content entry)))

  -- Readers whose batches are the bytes from a position on.
  abbrev pub Give : ℕ → List ℕ → Outcome ReadError (List (BatchingReader bytes_reader)) → Type 0
  Give pos bytes outcome =
      (readers : List (BatchingReader bytes_reader)) × (outcome ≡ done readers)
      × (contents (flatten bytes_reader fuel readers) ≡ bytes)
      × AreInARow batch_size pos (flatten bytes_reader fuel readers)

  abbrev batches_from : ℕ → dir.Entry → List Batch
  batches_from pos entry =
      batches bytes_reader fuel (new_reader bytes_reader (content entry) pos batch_size file_size)

  abbrev IsWhole : ℕ → dir.Entry → Type 0
  IsWhole pos entry =
      (contents (batches_from pos entry) ≡ take file_size (content entry))
      × AreInARow batch_size pos (batches_from pos entry)

  none_opened : (id pos : ℕ) → Give pos [] (open_files bytes_reader dir batch_size file_size id [])
  unfolding open_files flatten
  none_opened id pos = ([], refl, refl, tt)

  opened :
      (id : ℕ) (entry : dir.Entry) (entries : List dir.Entry) (rest : List ℕ)
      → IsReadable entry
      → length (content entry) ≤ file_size
      → id * file_size + file_size < 2 ^ 64
      → Give
          (id * file_size + length (content entry))
          rest
          (open_files bytes_reader dir batch_size file_size (id + 1) entries)
      → Give
          (id * file_size)
          (content entry ++ rest)
          (open_files bytes_reader dir batch_size file_size id (entry ∷ entries))
  unfolding open_files flatten
  opened id entry entries rest (opens, len) small fits (readers, e, all, row) =
      let place : u64 (id * file_size) ≡ id * file_size = omega arith in
      let (whole, first) =
        subst (λ p. IsWhole p entry) (sym place)
          (batches_lem (id * file_size) batch_size file_size some_bytes fits fuel (content entry)
            enough) in
      let size : contents (batches_from (u64 (id * file_size)) entry) ≡ content entry =
        whole ∙ take_all file_size (content entry) small in
      (
        new_reader bytes_reader (content entry) (u64 (id * file_size)) batch_size file_size
            ∷ readers,
        rw (opens, len, e) refl,
        contents-append (batches_from (u64 (id * file_size)) entry)
              (flatten bytes_reader fuel readers)
            ∙ ap₂ (◌++◌) size all,
        AreInARow-append batch_size (id * file_size) (batches_from (u64 (id * file_size)) entry)
            (flatten bytes_reader fuel readers)
            (subst (λ p. AreInARow batch_size p (batches_from (u64 (id * file_size)) entry)) place
              first)
            (subst
              (λ n. AreInARow batch_size (id * file_size + n) (flatten bytes_reader fuel readers))
              (sym (ap length size)) row),
      )

  open_files-Give :
      (id : ℕ) (files : List dir.Entry)
      → All IsReadable files
      → AreLaidOut file_size (map content files)
      → (id + length files) * file_size < 2 ^ 64
      → Give
          (id * file_size)
          (concat (map content files))
          (open_files bytes_reader dir batch_size file_size id files)
  open_files-Give id [] h laid fits = none_opened id (id * file_size)
  open_files-Give id (entry ∷ []) h laid fits =
      opened id entry [] [] h.0 laid.0 (next_place id 0 file_size fits).0 (none_opened (id + 1) _)
  open_files-Give id (entry ∷ next ∷ files) h laid fits =
      let (now, later, step) = next_place id (length (next ∷ files)) file_size fits in
      let ih = open_files-Give (id + 1) (next ∷ files) h.1 laid.1 later in
      let small : length (content entry) ≤ file_size = omega (arith, laid.0) in
      let e : (id + 1) * file_size ≡ id * file_size + length (content entry) =
        omega (arith, step, laid.0) in
      opened id entry (next ∷ files) _ h.0 small now (
        subst
          (λ p.
            Give p (concat (map content (next ∷ files)))
              (open_files bytes_reader dir batch_size file_size (id + 1) (next ∷ files)))
          e ih)

  listed-IsListing :
      (entries : List (Option dir.Entry)) (files : List dir.Entry)
      → dir.read_dir ≡ some entries
      → pos_files bytes_reader dir ≡ done files
      → IsListing bytes_reader dir entries files
  listed-IsListing entries files was_read listed =
      let (others, same, listing) = pos_files-IsListing bytes_reader dir entries was_read in
      let e : others ≡ files = cc (sym same ∙ listed) in
      subst (IsListing bytes_reader dir entries) e listing

  -- For batches of at least one byte, and more calls of `next` for a file than its size: `pos_files`
  -- lists the entries with the name of a label file, in the order of their numbers. If these files can
  -- be read, all but the last have the file size and the last at most that, and they end below 2 ^ 64,
  -- then `read_data` returns readers whose batches are the contents of the files joined, in batches
  -- that follow one another from position 0 on, none empty and none longer than the batch size.
  pub read_data-pos_files :
      (entries : List (Option dir.Entry)) (files : List dir.Entry)
      → dir.read_dir ≡ some entries
      → pos_files bytes_reader dir ≡ done files
      → All IsReadable files
      → AreLaidOut file_size (map content files)
      → length files * file_size < 2 ^ 64
      → IsListing bytes_reader dir entries files
        × ((readers : List (BatchingReader bytes_reader)) × (read_data bytes_reader dir batch_size
                file_size
              ≡ done readers)
            × (contents (flatten bytes_reader fuel readers) ≡ concat (map content files))
            × AreInARow batch_size 0 (flatten bytes_reader fuel readers))
  unfolding read_data
  read_data-pos_files entries files was_read listed h laid fits =
      let none_before : 0 * file_size ≡ 0 = omega arith in
      let all : 0 + length files ≡ length files = omega arith in
      let end : (0 + length files) * file_size < 2 ^ 64 =
        omega (arith, ap (λ (n : ℕ). n * file_size) all, fits) in
      let (readers, e, whole, row) = open_files-Give 0 files h laid end in
      (
        listed-IsListing entries files was_read listed,
        (
          readers,
          rw (listed) e,
          whole,
          subst (λ p. AreInARow batch_size p (flatten bytes_reader fuel readers)) none_before row,
        ),
      )
