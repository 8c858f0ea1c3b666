-- ===== src/PosVerification/Accept.antt =====
-- When `verify` accepts a file, and what its errors tell.
use post_rs.Base.{IsMember, here, there}
use post_rs.Base.{
  ℕ, ◌+◌, ◌*◌, ◌/◌, ◌^◌, ◌≤◌, ◌<◌, ◌≡◌, ◌≢◌, ◌⊎◌, inl, inr, refl, sym, ap, ◌∙◌, arith, Option, none,
  some, List, [], ◌∷◌, map,
}
use post_rs.Base.{length, take, drop, leb, All, Bool-cases, if◌then◌else◌, length-take, length-drop}
use post_rs.Base.Bytes.{eq_bytes, eq_bytes_sound, eq_bytes_refl}
use post_rs.Base.Words.{u64}
use post_rs.Base.Outcome.{Outcome, done, failed}
use post_rs.Crates.{Blake3, Scrypt}
use post_rs.Config.{ScryptParams, ScryptFactors, to_scrypt_factors}
use post_rs.Metadata.{PostMetadata, F64, labels_in_file}
use post_rs.Initialize.{calc_commitment, label_of}
use post_rs.Initialize.Label.{initialize_to-one}
use post_rs.PosVerification.{
  VerificationError, invalid_label, io, SeekRead, Sampling, sample_of, read_labels, check_stored,
  Collects, collected, one_failed, one_panicked, stored_items, MayGive, Verifies,
}
use mathlib.Core.Path.{subst}
use mathlib.Core.List.{append-nil}

-- A file as a reader: its bytes, and the position in it.
abbrev pub file_reader : SeekRead
file_reader = record {
  R = List ℕ × ℕ;
  seek = λ (bytes, at) position. (some tt, (bytes, position));
  read_exact = λ (bytes, at) count.
      if leb (at + count) (length bytes)
      then (some (take count (drop at bytes)), (bytes, at + count))
      else (none, (bytes, length bytes));
}

abbrev pub read_at : List ℕ → ℕ → Option (ℕ × List ℕ)
read_at bytes index =
    if leb (index * 16 + 16) (length bytes)
    then some (index, take 16 (drop (index * 16) bytes))
    else none

read_labels-file :
    (bytes : List ℕ) (at : ℕ) (indices : List ℕ)
    → All (λ index. index * 16 < 2 ^ 64) indices
    → read_labels file_reader (bytes, at) indices ≡ map (read_at bytes) indices
unfolding read_labels
read_labels-file bytes at [] h = refl
read_labels-file bytes at (index ∷ indices) (h, hs) =
    let small : u64 (index * 16) ≡ index * 16 = omega arith in
    let inside = read_labels-file bytes (index * 16 + 16) indices hs in
    let outside = read_labels-file bytes (length bytes) indices hs in
    ground (arith, small, inside, outside)

map-map {ℓ κ μ} :
    {A : Type ℓ} {B : Type κ} {C : Type μ} (f : A → B) (g : B → C) (xs : List A)
    → map g (map f xs) ≡ map (λ x. g (f x)) xs
map-map f g [] = refl
map-map f g (x ∷ xs) = ap (◌∷◌ (g (f x))) (map-map f g xs)

-- What the file holds for a label is the first half of the label.
abbrev pub Matches : (ℕ → List ℕ) → List ℕ → ℕ → Type 0
Matches label bytes index = take 16 (drop (index * 16) bytes) ≡ take 16 (label index)

-- The error that tells of a label.
abbrev pub IsErrorOf : List ℕ → ℕ → ℕ → Outcome VerificationError (Unit {0}) → Type 0
IsErrorOf bytes file_idx index r =
    ((r ≡ failed io) × (length bytes < index * 16 + 16))
    ⊎ (r ≡ failed (invalid_label file_idx (index * 16)))

-- A result of `verify`, told by the labels of the sample: it is a success and all match, or it is the
-- error of one that does not.
abbrev pub IsExplained :
    (ℕ → List ℕ) → List ℕ → ℕ → List ℕ → Outcome VerificationError (Unit {0}) → Type 0
IsExplained label bytes file_idx sample r =
    ((r ≡ done tt) × All (Matches label bytes) sample)
    ⊎ ((index : ℕ) × IsMember index sample
        × (¬ Matches label bytes index)
        × IsErrorOf bytes file_idx index r)

module _ (scrypt : Scrypt) (params : ScryptParams) (factors : ScryptFactors) (commitment : List ℕ)
    (convert : to_scrypt_factors params ≡ some factors)
    (size32 : (i : ℕ) → length (label_of scrypt factors commitment i) ≡ 32) (bytes : List ℕ)
    (file_idx offset : ℕ) where
  abbrev stored_label : ℕ → List ℕ
  stored_label index = label_of scrypt factors commitment (index + offset)

  abbrev item : ℕ → Outcome VerificationError (Unit {0})
  item index = check_stored scrypt params commitment file_idx offset (read_at bytes index)

  compare_label :
      (index : ℕ) (label : List ℕ)
      → index + offset + 1 < 2 ^ 64
      → index * 16 < 2 ^ 64
      → check_stored scrypt params commitment file_idx offset (some (index, label)) ≡ (
          if eq_bytes label (take 16 (label_of scrypt factors commitment (index + offset)))
          then done tt
          else failed (invalid_label file_idx (index * 16)))
  unfolding check_stored
  compare_label index label fits small =
      let at : u64 (index + offset) ≡ index + offset = omega arith in
      let made =
        initialize_to-one scrypt params factors commitment (index + offset) convert fits
          (size32 (index + offset)) in
      let place : u64 (index * 16) ≡ index * 16 = omega arith in
      rw (at, check_stored, made, append-nil, place) refl

  check_missing : check_stored scrypt params commitment file_idx offset none ≡ failed io
  unfolding check_stored
  check_missing = refl

  item-cases :
      (index : ℕ)
      → index + offset + 1 < 2 ^ 64
      → index * 16 < 2 ^ 64
      → ((item index ≡ done tt) × Matches stored_label bytes index)
        ⊎ ((¬ Matches stored_label bytes index) × IsErrorOf bytes file_idx index (item index))
  item-cases index fits small =
      let stored = take 16 (drop (index * 16) bytes) in
      let expected = take 16 (label_of scrypt factors commitment (index + offset)) in
      elim (Bool-cases (leb (index * 16 + 16) (length bytes))) [
        | inl inside ↦
            let compared : item index ≡ (
                if eq_bytes stored expected
                then done tt
                else failed (invalid_label file_idx (index * 16))) =
              rw inside (compare_label index stored fits small) in
            elim (Bool-cases (eq_bytes stored expected)) [
              | inl same ↦ inl (compared ∙ rw same refl, eq_bytes_sound stored expected same)
              | inr differ ↦ inr (
                λ m. absurd (cc (differ, ap (λ t. eq_bytes t expected) m, eq_bytes_refl expected)),
                inr (compared ∙ rw differ refl),
              )
            ]
        | inr outside ↦
            let short : length bytes < index * 16 + 16 = ground arith in
            inr (
              λ m. absurd (
                  omega (
                    arith,
                    ap length m,
                    length-take 16 (drop (index * 16) bytes),
                    length-drop (index * 16) bytes,
                    length-take 16 (label_of scrypt factors commitment (index + offset)),
                    size32 (index + offset),
                  )),
              inl (rw outside check_missing, short),
            )
      ]

  passing_sample :
      (sample : List ℕ)
      → All (λ index. (index + offset + 1 < 2 ^ 64) × (index * 16 < 2 ^ 64)) sample
      → All (λ r. r ≡ done tt) (map item sample)
      → All (Matches stored_label bytes) sample
  passing_sample [] h passed = tt
  passing_sample (index ∷ sample) ((fits, small), hs) (passes, passed) =
      let rest = passing_sample sample hs passed in
      elim (item-cases index fits small) [
        | inl (e, m) ↦ (m, rest)
        | inr (m, inl (e, short)) ↦ absurd (cc (e, passes))
        | inr (m, inr e) ↦ absurd (cc (e, passes))
      ]

  matching_sample :
      (sample : List ℕ)
      → All (λ index. (index + offset + 1 < 2 ^ 64) × (index * 16 < 2 ^ 64)) sample
      → All (Matches stored_label bytes) sample
      → All (λ r. r ≡ done tt) (map item sample)
  matching_sample [] h m = tt
  matching_sample (index ∷ sample) ((fits, small), hs) (m, ms) =
      let rest = matching_sample sample hs ms in
      elim (item-cases index fits small) [
        | inl (e, same) ↦ (e, rest)
        | inr (differ, e) ↦ absurd (differ m)
      ]

  -- An outcome other than success is that of a label of the sample that does not match.
  failing_label :
      (sample : List ℕ) {r : Outcome VerificationError (Unit {0})}
      → All (λ index. (index + offset + 1 < 2 ^ 64) × (index * 16 < 2 ^ 64)) sample
      → r ≢ done tt
      → IsMember r (map item sample)
      → (index : ℕ) × IsMember index sample
        × (¬ Matches stored_label bytes index)
        × IsErrorOf bytes file_idx index r
  failing_label [] h bad k = elim k [ ]
  failing_label (index ∷ sample) ((fits, small), hs) bad here = elim (item-cases index fits small) [
    | inl (e, m) ↦ absurd (bad e)
    | inr (m, e) ↦ (index, here, m, e)
  ]
  failing_label (index ∷ sample) (h, hs) bad (there k) =
      let (other, at, m, e) = failing_label sample hs bad k in (other, there at, m, e)

  told :
      (sample : List ℕ) {r : Outcome VerificationError (Unit {0})}
      → All (λ index. (index + offset + 1 < 2 ^ 64) × (index * 16 < 2 ^ 64)) sample
      → Collects (map item sample) r
      → IsExplained stored_label bytes file_idx sample r
  told sample h (collected passed) = inl (refl, passing_sample sample h passed)
  told sample h (one_failed k) = inr (failing_label sample h (λ e. cc e) k)
  told sample h (one_panicked k) = inr (failing_label sample h (λ e. cc e) k)

abbrev pub offset_of : PostMetadata → ℕ → ℕ
offset_of metadata file_idx = u64 (file_idx * metadata.max_file_size) / 16

abbrev pub commitment_of : Blake3 → PostMetadata → List ℕ
commitment_of blake3 metadata = calc_commitment blake3 metadata.node_id metadata.commitment_atx_id

bounded :
    (count offset : ℕ) (sample : List ℕ)
    → count * 16 ≤ 2 ^ 64
    → offset + count < 2 ^ 64
    → All (λ index. index < count) sample
    → All (λ index. (index + offset + 1 < 2 ^ 64) × (index * 16 < 2 ^ 64)) sample
bounded count offset [] small fits h = tt
bounded count offset (index ∷ sample) small fits (h, hs) =
    ((omega arith, omega arith), bounded count offset sample small fits hs)

places :
    (offset : ℕ) (sample : List ℕ)
    → All (λ index. (index + offset + 1 < 2 ^ 64) × (index * 16 < 2 ^ 64)) sample
    → All (λ index. index * 16 < 2 ^ 64) sample
places offset [] h = tt
places offset (index ∷ sample) ((fits, small), hs) = (small, places offset sample hs)

-- For parameters that convert, labels of 32 bytes, and a sample of indices of labels in the file,
-- none of them beyond 64 bits: if all labels of the sample match what `initialize_to` makes, `verify`
-- may succeed; and whatever it returns, it is a success and all match, or it is the error of a label of
-- the sample that does not match, with its place. It never panics.
pub Verifies-IsExplained :
    (blake3 : Blake3) (scrypt : Scrypt) (f64 : F64) (sampling : Sampling f64) (bytes : List ℕ)
    (at file_idx : ℕ) (fraction : f64.Float) (metadata : PostMetadata) (params : ScryptParams)
    (factors : ScryptFactors) (labels_count : ℕ)
    → to_scrypt_factors params ≡ some factors
    → ((i : ℕ) → length (label_of scrypt factors (commitment_of blake3 metadata) i) ≡ 32)
    → labels_in_file f64 metadata file_idx ≡ some labels_count
    → All (λ index. index < labels_count) (sample_of f64 sampling fraction labels_count)
    → labels_count * 16 ≤ 2 ^ 64
    → offset_of metadata file_idx + labels_count < 2 ^ 64
    → (All
          (Matches
            (λ index.
              label_of scrypt factors
                (commitment_of blake3 metadata)
                (index + offset_of metadata file_idx))
            bytes)
          (sample_of f64 sampling fraction labels_count)
        → Verifies blake3 scrypt f64 sampling file_reader
            (bytes, at)
            file_idx
            fraction
            metadata
            params
            (done tt))
      × ((r : Outcome VerificationError (Unit {0}))
          → Verifies blake3 scrypt f64 sampling file_reader
              (bytes, at)
              file_idx
              fraction
              metadata
              params
              r
          → IsExplained
              (λ index.
                label_of scrypt factors
                  (commitment_of blake3 metadata)
                  (index + offset_of metadata file_idx))
              bytes
              file_idx
              (sample_of f64 sampling fraction labels_count)
              r)
unfolding Verifies stored_items
Verifies-IsExplained blake3 scrypt f64 sampling bytes at file_idx fraction metadata params factors
      labels_count convert size32 count inside small fits =
    let offset = offset_of metadata file_idx in
    let commitment = commitment_of blake3 metadata in
    let sample = sample_of f64 sampling fraction labels_count in
    let in_bounds = bounded labels_count offset sample small fits inside in
    let read = read_labels-file bytes at sample (places offset sample in_bounds) in
    let items : stored_items blake3 scrypt f64 sampling file_reader (bytes, at) file_idx fraction
          metadata params
        ≡ some (
            map (item scrypt params factors commitment convert size32 bytes file_idx offset)
              sample) =
      rw (stored_items, count, read)
        (ap some (
          map-map (read_at bytes) (check_stored scrypt params commitment file_idx offset)
            sample)) in
    (
      λ matching.
          subst (λ t. MayGive t (done tt)) (sym items)
            (collected (
              matching_sample scrypt params factors commitment convert size32 bytes file_idx offset
                sample in_bounds matching)),
      λ r may.
          told scrypt params factors commitment convert size32 bytes file_idx offset sample
            in_bounds (subst (λ t. MayGive t r) items may),
    )
