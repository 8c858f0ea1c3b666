-- ===== src/Initialize/Files/Contents.antt =====
-- What the files hold that `initialize` writes, on a disk without faults.
use post_rs.Base.{
  ℕ, zero, suc, ◌+◌, ◌-◌, ◌*◌, ◌<◌, ◌≤◌, ◌≡◌, ◌∙◌, refl, sym, ap, arith, inl, inr, Option, none,
  some, List, [], ◌∷◌, ◌++◌, map, min,
}
use post_rs.Base.{take, concat, range_from, ◌==◌, if◌then◌else◌, Bool-cases}
use post_rs.Base.Words.{u64}
use post_rs.Base.Outcome.{done}
use post_rs.Crates.{Blake3, Scrypt}
use post_rs.Config.{ScryptParams, ScryptFactors, to_scrypt_factors}
use post_rs.Metadata.{PostMetadata}
use post_rs.Prove.Nonces.{Range}
use post_rs.Initialize.{VrfNonce, label_of, labels_of, update_nonce, write_labels, initialize_to}
use post_rs.Initialize.Files.{
  Disk, io, put_file, append_file, create_file, write_file, file_writer, next_vrf, write_files,
}
use post_rs.Initialize.Nonce.{best}
use post_rs.Base.Bytes.{lex_lt}
use mathlib.Core.Path.{subst}
use mathlib.Core.List.{append_assoc, append-nil}

abbrev pub get_file : ℕ → List (ℕ × List ℕ) → Option (List ℕ)
get_file id [] = none
get_file id ((other, bytes) ∷ files) = if id == other then some bytes else get_file id files

get_file-put_file :
    (k id : ℕ) (bytes : List ℕ) (files : List (ℕ × List ℕ))
    → get_file k (put_file id bytes files) ≡ (if k == id then some bytes else get_file k files)
unfolding put_file
get_file-put_file k id bytes [] = ground arith
get_file-put_file k id bytes ((other, old) ∷ files) =
    ground (arith, get_file-put_file k id bytes files)

get_file-append_file :
    (k id : ℕ) (bytes old : List ℕ) (files : List (ℕ × List ℕ))
    → get_file id files ≡ some old
    → get_file k (append_file id bytes files)
      ≡ (if k == id then some (old ++ bytes) else get_file k files)
unfolding append_file
get_file-append_file k id bytes old [] h = cc
get_file-append_file k id bytes old ((other, was) ∷ files) h = elim (Bool-cases (id == other)) [
  | inl same ↦
      let here : id ≡ other = ground (arith, same) in
      let held : was ≡ old = (let e : some was ≡ some old = ground (arith, same, h) in cc e) in
      ground (arith, same, here, ap (λ t. t ++ bytes) held)
  | inr apart ↦
      ground (arith, apart, h, get_file-append_file k id bytes old files (ground (arith, apart, h)))
]

placed :
    (k id : ℕ) (bytes : List ℕ) (files : List (ℕ × List ℕ))
    → get_file k (append_file id bytes (put_file id [] files))
      ≡ (if k == id then some bytes else get_file k files)
placed k id bytes files =
    let empty : get_file id (put_file id [] files) ≡ some [] =
      ground (arith, get_file-put_file id id [] files) in
    ground (
      arith,
      get_file-append_file k id bytes [] (put_file id [] files) empty,
      get_file-put_file k id [] files,
    )

append_file-nil : (id : ℕ) (files : List (ℕ × List ℕ)) → append_file id [] files ≡ files
unfolding append_file
append_file-nil id [] = refl
append_file-nil id ((other, old) ∷ files) = ground (arith, append-nil old, append_file-nil id files)

append_file-append :
    (id : ℕ) (first second : List ℕ) (files : List (ℕ × List ℕ))
    → append_file id second (append_file id first files) ≡ append_file id (first ++ second) files
unfolding append_file
append_file-append id first second [] = refl
append_file-append id first second ((other, old) ∷ files) =
    ground (arith, append_assoc old first second, append_file-append id first second files)

abbrev pub disk_of : List (ℕ × List ℕ) → Option PostMetadata → Disk
disk_of files metadata = record { files = files; metadata = metadata; faults = [] }

write_labels-file :
    (index : ℕ) (labels : List (List ℕ)) (vrf : Option VrfNonce × Option (List ℕ)) (id : ℕ)
    (files : List (ℕ × List ℕ)) (metadata : Option PostMetadata)
    → write_labels file_writer index labels vrf (id, disk_of files metadata)
      ≡ done (
        (id, disk_of (append_file id (concat (map (take 16) labels)) files) metadata),
        (best index labels vrf).0,
      )
unfolding write_labels write_file io best
write_labels-file index [] (nonce, vrf_difficulty) id files metadata =
    ap (λ fs. done ((id, disk_of fs metadata), nonce)) (sym (append_file-nil id files))
write_labels-file index (label ∷ labels) vrf id files metadata =
    write_labels-file (index + 1) labels (update_nonce index label vrf) id
      (append_file id (take 16 label) files) metadata
    ∙ ap
        (λ fs.
          done
            ((id, disk_of fs metadata), (best (index + 1) labels (update_nonce index label vrf)).0))
        (append_file-append id (take 16 label) (concat (map (take 16) labels)) files)

-- The nonce that is found from the difficulty alone, with an earlier one to fall back on.
best_found :
    (index : ℕ) (labels : List (List ℕ)) (n : VrfNonce)
    → (m : VrfNonce) × (best index labels (some n, some n.label) ≡ (some m, some m.label))
unfolding best update_nonce
best_found index [] n = (n, refl)
best_found index (label ∷ labels) n = elim (Bool-cases (lex_lt label n.label)) [
  | inl less ↦
      let (m, e) = best_found (index + 1) labels (record { index = index; label = label }) in
      (m, rw less e)
  | inr more ↦ let (m, e) = best_found (index + 1) labels n in (m, rw more e)
]

kept :
    (m : VrfNonce) (vrf earlier : Option VrfNonce × Option (List ℕ))
    → vrf ≡ (some m, some m.label)
    → vrf ≡ next_vrf vrf.0 earlier
kept m vrf earlier e = e ∙ sym (ap (λ t. next_vrf t.0 earlier) e)

best-next_vrf :
    (index : ℕ) (labels : List (List ℕ)) (before : Option VrfNonce) (difficulty : Option (List ℕ))
    → best index labels (before, difficulty)
      ≡ next_vrf (best index labels (none, difficulty)).0 (before, difficulty)
unfolding best update_nonce
best-next_vrf index [] before difficulty = refl
best-next_vrf index (label ∷ labels) before none = best-next_vrf (index + 1) labels before none
best-next_vrf index (label ∷ labels) before (some difficulty) =
    elim (Bool-cases (lex_lt label difficulty)) [
      | inl less ↦
          let n : VrfNonce = record { index = index; label = label } in
          let (m, e) = best_found (index + 1) labels n in
          rw (less, best, update_nonce)
            (kept m (best (index + 1) labels (some n, some label)) (before, some difficulty) e)
      | inr more ↦
          rw (more, best, update_nonce) (best-next_vrf (index + 1) labels before (some difficulty))
    ]

module _ (scrypt : Scrypt) (params : ScryptParams) (factors : ScryptFactors)
    (converts : to_scrypt_factors params ≡ some factors) (blake3 : Blake3) (commitment : List ℕ)
    (total_labels labels_per_file : ℕ) where
  -- The labels of a file, by its number.
  abbrev pub file_labels : ℕ → List (List ℕ)
  file_labels id =
      let start = u64 (id * labels_per_file) in
      let end = min total_labels (u64 (start + labels_per_file)) in
      map (label_of scrypt factors commitment) (range_from start (end - start))

  abbrev pub file_bytes : ℕ → List ℕ
  file_bytes id = concat (map (take 16) (file_labels id))

  pub files_after : ℕ → ℕ → List (ℕ × List ℕ) → List (ℕ × List ℕ)
  files_after zero id files = files
  files_after (suc count) id files =
      files_after count (id + 1) (append_file id (file_bytes id) (put_file id [] files))

  labels_of-range :
      (labels : Range)
      → labels_of scrypt params commitment labels
        ≡ some (
            map
              (label_of scrypt factors commitment)
              (range_from labels.start (labels.end - labels.start)))
  unfolding labels_of
  labels_of-range labels = rw (converts, labels_of) refl

  one_file :
      (id : ℕ) (vrf : Option (List ℕ)) (files : List (ℕ × List ℕ)) (metadata : Option PostMetadata)
      → let start = u64 (id * labels_per_file) in
        initialize_to file_writer scrypt params
          (id, disk_of files metadata)
          commitment
          (record { start = start; end = min total_labels (u64 (start + labels_per_file)) })
          vrf
        ≡ done (
          (id, disk_of (append_file id (file_bytes id) files) metadata),
          (best start (file_labels id) (none, vrf)).0,
        )
  unfolding initialize_to
  one_file id vrf files metadata =
      let start = u64 (id * labels_per_file) in
      let end = min total_labels (u64 (start + labels_per_file)) in
      let got = labels_of-range (record { start = start; end = end }) in
      rw (initialize_to, got)
        (write_labels-file start (file_labels id) (none, vrf) id files metadata)

  -- The nonce and the difficulty after some files.
  unfoldable pub best_of_files :
      ℕ → ℕ → Option VrfNonce × Option (List ℕ) → Option VrfNonce × Option (List ℕ)
  best_of_files zero id vrf = vrf
  best_of_files (suc count) id vrf =
      best_of_files count (id + 1) (best (u64 (id * labels_per_file)) (file_labels id) vrf)

  pub write_files-done :
      (count id : ℕ) (vrf : Option VrfNonce × Option (List ℕ)) (files : List (ℕ × List ℕ))
      (metadata : Option PostMetadata)
      → write_files blake3
          (initialize_to file_writer scrypt params)
          count
          id
          total_labels
          labels_per_file
          commitment
          vrf
          (disk_of files metadata)
        ≡ done (disk_of (files_after count id files) metadata, (best_of_files count id vrf).0)
  unfolding write_files create_file io files_after best_of_files
  write_files-done zero id (before, vrf) files metadata = refl
  write_files-done (suc count) id (before, vrf) files metadata =
      let start = u64 (id * labels_per_file) in
      let next = best-next_vrf start (file_labels id) before vrf in
      rw (one_file id vrf (put_file id [] files) metadata) (
        subst
          (λ v.
            write_files blake3 (initialize_to file_writer scrypt params) count (id + 1) total_labels
              labels_per_file commitment v
              (disk_of (append_file id (file_bytes id) (put_file id [] files)) metadata)
            ≡ done (
              disk_of
                  (files_after count (id + 1)
                    (append_file id (file_bytes id) (put_file id [] files)))
                  metadata,
              (best_of_files count (id + 1) (best start (file_labels id) (before, vrf))).0,
            ))
          next
          (write_files-done count (id + 1) (best start (file_labels id) (before, vrf)) _ metadata))

  get_file-earlier :
      (count id k : ℕ) (files : List (ℕ × List ℕ))
      → k < id
      → get_file k (files_after count id files) ≡ get_file k files
  unfolding files_after
  get_file-earlier zero id k files h = refl
  get_file-earlier (suc count) id k files h =
      get_file-earlier count (id + 1) k _ (omega arith)
      ∙ ground (arith, h, placed k id (file_bytes id) files)

  pub get_file-files_after :
      (count id k : ℕ) (files : List (ℕ × List ℕ))
      → id ≤ k
      → k < id + count
      → get_file k (files_after count id files) ≡ some (file_bytes k)
  unfolding files_after
  get_file-files_after zero id k files lo hi = absurd (omega arith)
  get_file-files_after (suc count) id k files lo hi = elim (Bool-cases (k == id)) [
    | inr apart ↦ get_file-files_after count (id + 1) k _ (ground (arith, apart)) (omega arith)
    | inl same ↦
        let here : k ≡ id = ground (arith, same) in
        get_file-earlier count (id + 1) k _ (omega (arith, here))
        ∙ ground (arith, same, placed k id (file_bytes id) files)
        ∙ ap (λ n. some (file_bytes n)) (sym here)
  ]
