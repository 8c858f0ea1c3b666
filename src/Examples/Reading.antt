-- ===== src/Examples/Reading.antt =====
-- A directory of two files of labels and one other, read in batches of two bytes.
use post_rs.Base.{ℕ, ◌≡◌, refl, arith, none, some, List, [], ◌∷◌, map, ◌==◌, if◌then◌else◌}
use post_rs.Base.{length, concat, leb}
use post_rs.Base.Outcome.{done}
use post_rs.Reader.{BatchingReader, bytes_reader}
use post_rs.Reader.Whole.{contents, AreInARow}
use post_rs.Reader.Files.{
  DataDir, numbered, insert_by_id, sorted_by_id, pos_files, read_data, flatten,
}
use post_rs.Reader.Files.Order.{IsListing}
use post_rs.Reader.Files.Row.{read_data-pos_files}

-- The files 7 and 2 have labels, and the file 9 has another name.
abbrev content : ℕ → List ℕ
content file = if file == 2 then 1 ∷ 2 ∷ 3 ∷ 4 ∷ [] else 5 ∷ 6 ∷ 7 ∷ []

abbrev dir : DataDir bytes_reader
dir = record {
  Entry = ℕ;
  read_dir = some (some 7 ∷ none ∷ some 9 ∷ some 2 ∷ []);
  file_id = λ file. if leb file 7 then some file else none;
  open_file = λ file. some (content file);
  file_len = λ file. some (length file);
}

files_listed : pos_files bytes_reader dir ≡ done (2 ∷ 7 ∷ [])
unfolding pos_files numbered insert_by_id sorted_by_id
files_listed = refl

read_data-pos_files_example :
    IsListing bytes_reader dir (some 7 ∷ none ∷ some 9 ∷ some 2 ∷ []) (2 ∷ 7 ∷ [])
    × ((readers : List (BatchingReader bytes_reader)) × (read_data bytes_reader dir 2 4
          ≡ done readers)
        × (contents (flatten bytes_reader 5 readers) ≡ concat (map content (2 ∷ 7 ∷ [])))
        × AreInARow 2 0 (flatten bytes_reader 5 readers))
read_data-pos_files_example =
    read_data-pos_files dir content 2 4 5 (omega arith) (omega arith)
      (some 7 ∷ none ∷ some 9 ∷ some 2 ∷ []) (2 ∷ 7 ∷ []) refl files_listed
      ((refl, refl), ((refl, refl), tt)) (refl, (omega arith, tt)) (omega arith)
