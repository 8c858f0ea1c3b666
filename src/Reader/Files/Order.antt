-- ===== src/Reader/Files/Order.antt =====
-- The files of a directory are listed in the order of their numbers.
use post_rs.Base.{ℕ, ◌≤◌, ◌≡◌, refl, arith, inl, inr, Option, some, List, [], ◌∷◌, map}
use post_rs.Base.{leb, Bool-cases}
use post_rs.Base.Outcome.{done}
use post_rs.Reader.{Read}
use post_rs.Reader.Files.{DataDir, numbered, insert_by_id, sorted_by_id, pos_files}
use mathlib.Core.List.{Perm}
use mathlib.Core.List.Perm

module _ (read : Read) (dir : DataDir read) where
  abbrev Numbered : Type 0
  Numbered = ℕ × dir.Entry

  abbrev pub AreInOrder : List Numbered → Type 0
  AreInOrder [] = Unit
  AreInOrder (file ∷ []) = Unit
  AreInOrder (file ∷ next ∷ rest) = (file.0 ≤ next.0) × AreInOrder (next ∷ rest)

  insert_by_id-perm :
      (file : Numbered) (files : List Numbered)
      → Perm (insert_by_id read dir file files) (file ∷ files)
  unfolding insert_by_id
  insert_by_id-perm (id, entry) [] = Perm.refl _
  insert_by_id-perm (id, entry) ((other, next) ∷ files) = elim (Bool-cases (leb id other)) [
    | inl first ↦ rw first (Perm.refl _)
    | inr later ↦ rw later (
        Perm.trans (Perm.cons (other, next) (insert_by_id-perm (id, entry) files))
          (Perm.swap (id, entry) (other, next) files))
  ]

  sorted_by_id-perm : (files : List Numbered) → Perm (sorted_by_id read dir files) files
  unfolding sorted_by_id
  sorted_by_id-perm [] = Perm.refl _
  sorted_by_id-perm (file ∷ files) =
      Perm.trans (insert_by_id-perm file (sorted_by_id read dir files))
        (Perm.cons file (sorted_by_id-perm files))

  -- After a file, one that is not before it and files in order.
  insert_after :
      (file : Numbered) (files : List Numbered) (before : Numbered)
      → before.0 ≤ file.0
      → AreInOrder (before ∷ files)
      → AreInOrder (before ∷ insert_by_id read dir file files)
  unfolding insert_by_id
  insert_after (id, entry) [] before h order = (h, tt)
  insert_after (id, entry) ((other, next) ∷ files) before h (le, order) =
      elim (Bool-cases (leb id other)) [
        | inl first ↦ rw first (h, (ground arith, order))
        | inr later ↦
            rw later (le, insert_after (id, entry) files (other, next) (ground arith) order)
      ]

  insert-AreInOrder :
      (file : Numbered) (files : List Numbered)
      → AreInOrder files
      → AreInOrder (insert_by_id read dir file files)
  unfolding insert_by_id
  insert-AreInOrder (id, entry) [] order = tt
  insert-AreInOrder (id, entry) ((other, next) ∷ files) order = elim (Bool-cases (leb id other)) [
    | inl first ↦ rw first (ground arith, order)
    | inr later ↦ rw later (insert_after (id, entry) files (other, next) (ground arith) order)
  ]

  sorted_by_id-AreInOrder : (files : List Numbered) → AreInOrder (sorted_by_id read dir files)
  unfolding sorted_by_id
  sorted_by_id-AreInOrder [] = tt
  sorted_by_id-AreInOrder (file ∷ files) =
      insert-AreInOrder file (sorted_by_id read dir files) (sorted_by_id-AreInOrder files)

  -- The files of a list of entries are these, in the order of their numbers.
  abbrev pub IsListing : List (Option dir.Entry) → List dir.Entry → Type 0
  IsListing entries files =
      (by_id : List Numbered) × (files ≡ map (λ f. f.1) by_id)
      × AreInOrder by_id
      × Perm by_id (numbered read dir entries)

  pub pos_files-IsListing :
      (entries : List (Option dir.Entry))
      → dir.read_dir ≡ some entries
      → (files : List dir.Entry) × (pos_files read dir ≡ done files) × IsListing entries files
  unfolding pos_files
  pos_files-IsListing entries e =
      let by_id = sorted_by_id read dir (numbered read dir entries) in
      (
        map (λ f. f.1) by_id,
        rw e refl,
        (
          by_id,
          refl,
          sorted_by_id-AreInOrder (numbered read dir entries),
          sorted_by_id-perm (numbered read dir entries),
        ),
      )
