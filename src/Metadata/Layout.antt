-- ===== src/Metadata/Layout.antt =====
-- The layout of labels in files.
use post_rs.Base.{ℕ, ◌-◌, ◌*◌, ◌/◌, ◌%◌, ◌+◌, ◌^◌, ◌<◌, ◌≡◌, ap, ◌∙◌, arith, some, min}
use post_rs.Metadata.{
  F64, F64Laws, PostMetadata, total_labels, total_size, num_files, labels_in_file, labels_in_last,
}
use post_rs.Base.{suc, ◌⊎◌, inl, inr}
use post_rs.Base.Arith.{div_mod_unique, mul-le-mul_right}
use post_rs.Base.Words.{sub64}
use native.Mathlib.Decide.{dec_lt}
use native.Mathlib.Nat.{div-add-mod', mod-lt, div-le_self}

-- The file size is a positive number of whole labels, there are labels, and all sizes are exact
-- as floats.
pub record IsLaidOut (m : PostMetadata) : Type 0 where
  pub whole : m.max_file_size % 16 ≡ 0
  pub pos : 0 < m.max_file_size
  pub file_fits : m.max_file_size < 2 ^ 53
  pub some_labels : 0 < m.num_units * m.labels_per_unit
  pub fits : m.num_units * m.labels_per_unit * 16 < 2 ^ 53

-- `q` files are full, and `s + 1` labels are left for the last.
layout :
    (t p q s idx : ℕ)
    → t ≡ q * p + s + 1
    → s < p
    → ((idx ≡ q) × (min p (t - idx * p) ≡ s + 1))
      ⊎ ((idx < q) × (min p (t - idx * p) ≡ p))
      ⊎ ((q < idx) × (min p (t - idx * p) ≡ 0))
layout t p q s idx e h = elim (dec_lt idx q) [
  | yes below ↦ inr (inl (below, omega (arith, e, mul-le-mul_right (suc idx) q p below)))
  | no up ↦ elim (dec_lt q idx) [
    | yes above ↦ inr (inr (above, omega (arith, e, mul-le-mul_right (suc q) idx p above)))
    | no same ↦ let i : idx ≡ q = omega arith in inl (i, omega (arith, e, ap (λ (k : ℕ). k * p) i))
  ]
]

last_remainder :
    (t p q s : ℕ)
    → t ≡ q * p + s + 1
    → s < p
    → ((s + 1 < p) × (t % p ≡ s + 1)) ⊎ ((s + 1 ≡ p) × (t % p ≡ 0))
last_remainder t p q s e h = elim (dec_lt (s + 1) p) [
  | yes less ↦ inl (less, (div_mod_unique t p q (s + 1) (omega arith) less).1)
  | no full ↦
      let whole : s + 1 ≡ p = omega arith in
      inr (whole, (div_mod_unique t p (q + 1) 0 (omega arith) (omega arith)).1)
]

files_of_labels : (t p : ℕ) → 0 < t → 0 < p → (t * 16 + 16 * p - 1) / (16 * p) ≡ (t - 1) / p + 1
files_of_labels t p ht hp =
    let s = (t - 1) % p in
    (div_mod_unique (t * 16 + 16 * p - 1) (16 * p) ((t - 1) / p + 1) (16 * s + 15)
      (omega (arith, div-add-mod' (t - 1) p)) (omega (arith, mod-lt (t - 1) hp))).0

module _ (f64 : F64) (laws : F64Laws f64) where
  num_files_lem :
      (m : PostMetadata)
      → IsLaidOut m
      → num_files f64 m
        ≡ (m.num_units * m.labels_per_unit * 16 + m.max_file_size - 1) / m.max_file_size
  unfolding num_files
  num_files_lem m h =
      let labels : total_size m ≡ m.num_units * m.labels_per_unit * 16 =
        unfold total_size total_labels in omega arith in
      rw (labels, num_files) (laws.ceil_div _ m.max_file_size h.fits h.pos h.file_fits)

  total_pos : (m : PostMetadata) → IsLaidOut m → 0 < total_labels m
  unfolding total_labels
  total_pos m h = omega arith

  total_lt : (m : PostMetadata) → IsLaidOut m → total_labels m < 2 ^ 53
  unfolding total_labels
  total_lt m h = omega arith

  last_file :
      (m : PostMetadata)
      → IsLaidOut m
      → sub64 (num_files f64 m) 1 ≡ (total_labels m - 1) / (m.max_file_size / 16)
  last_file m h =
      let t : ℕ = total_labels m in
      let p : ℕ = m.max_file_size / 16 in
      let size : m.max_file_size ≡ 16 * p = omega (arith, h.whole) in
      let labels : m.num_units * m.labels_per_unit * 16 ≡ t * 16 =
        unfold total_labels in omega (arith, h.fits) in
      let files : num_files f64 m ≡ (t - 1) / p + 1 =
        num_files_lem m h
        ∙ ap (λ (a : ℕ). (a + m.max_file_size - 1) / m.max_file_size) labels
        ∙ ap (λ (a : ℕ). (t * 16 + a - 1) / a) size
        ∙ files_of_labels t p (total_pos m h) (omega arith) in
      omega (arith, files, div-le_self (t - 1) p, total_lt m h)

  -- In well-formed metadata, file number `idx` holds the labels that are left after `idx` full
  -- files, at most as many as fit: none beyond the last file.
  pub labels_in_file_lem :
      (m : PostMetadata) (idx : ℕ)
      → IsLaidOut m
      → labels_in_file f64 m idx
        ≡ some (min (m.max_file_size / 16) (total_labels m - idx * (m.max_file_size / 16)))
  unfolding labels_in_file labels_in_last
  labels_in_file_lem m idx h =
      let t : ℕ = total_labels m in
      let p : ℕ = m.max_file_size / 16 in
      let q : ℕ = (t - 1) / p in
      let s : ℕ = (t - 1) % p in
      let split : t ≡ q * p + s + 1 = omega (arith, div-add-mod' (t - 1) p, total_pos m h) in
      let small : s < p = mod-lt (t - 1) (omega arith) in
      ground (
        arith,
        last_file m h,
        h.whole,
        split,
        small,
        layout t p q s idx split small,
        last_remainder t p q s split small,
      )
