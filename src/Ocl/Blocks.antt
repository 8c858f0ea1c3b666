-- ===== src/Ocl/Blocks.antt =====
-- What a round of `Scrypter::scrypt` does with the labels it has read: the chunks are the labels, the
-- scan is that of the CPU, and the compaction keeps the first half of each.
use post_rs.Base.{
  ℕ, zero, suc, ◌+◌, ◌-◌, ◌*◌, ◌^◌, ◌≤◌, ◌≡◌, refl, sym, ap, ◌∙◌, arith, true, Option, none, some,
  List, [], ◌∷◌, ◌++◌, map, inl, inr,
}
use post_rs.Base.{
  length, take, drop, All, concat, Bool-cases, ◌==◌, length-append, length-take, length-drop,
  take-append_exact, drop-append_exact, drop-drop,
}
use post_rs.Base.Bytes.{lex_lt}
use post_rs.Base.Words.{u64}
use post_rs.Base.Outcome.{done}
use post_rs.Initialize.{VrfNonce, update_nonce}
use post_rs.Initialize.Nonce.{best}
use post_rs.Ocl.Scrypt.{
  chunks_upto, scan_labels, scan_for_vrf_nonce, copy_within, compact, merge_nonce, look_for_nonce,
}
use mathlib.Core.Path.{ap₂}
use mathlib.Core.List.{append_assoc, append-nil}

abbrev pub IsLabel : List ℕ → Type 0
IsLabel label = length label ≡ 32

pub length-concat :
    (labels : List (List ℕ)) → All IsLabel labels → length (concat labels) ≡ length labels * 32
length-concat [] h = refl
length-concat (label ∷ labels) (h, hs) =
    omega (arith, length-append label (concat labels), length-concat labels hs)

pub chunks_upto-concat :
    (fuel : ℕ) (labels : List (List ℕ))
    → All IsLabel labels
    → length labels ≤ fuel
    → chunks_upto fuel 32 (concat labels) ≡ labels
unfolding chunks_upto
chunks_upto-concat zero [] h hf = refl
chunks_upto-concat (suc fuel) [] h hf = refl
chunks_upto-concat zero (label ∷ labels) h hf = absurd (omega arith)
chunks_upto-concat (suc fuel) ([] ∷ labels) (h, hs) hf = absurd (omega arith)
chunks_upto-concat (suc fuel) ((x ∷ label) ∷ labels) (h, hs) hf =
    ap₂ ◌∷◌ (take-append_exact (x ∷ label) (concat labels) 32 h) (
      ap (chunks_upto fuel 32) (drop-append_exact (x ∷ label) (concat labels) 32 h)
      ∙ chunks_upto-concat fuel labels hs (omega arith))

best_without :
    (index : ℕ) (labels : List (List ℕ)) (b : Option VrfNonce)
    → best index labels (b, none) ≡ (b, none)
unfolding best update_nonce
best_without index [] b = refl
best_without index (label ∷ labels) b = best_without (index + 1) labels b

module _ {E : Type 0} where
  pub scan_labels-best :
      (id index : ℕ) (labels : List (List ℕ)) (b : Option VrfNonce) (d : List ℕ)
      (nonce : Option VrfNonce) (difficulty : List ℕ)
      → All IsLabel labels
      → index + id + length labels ≤ 2 ^ 64
      → (merge_nonce index nonce (b, d)).1 ≡ difficulty
      → (found : Option VrfNonce) × (scan_labels {E = E} id labels difficulty nonce ≡ done found)
        × (best (index + id) labels ((merge_nonce index nonce (b, d)).0, some difficulty)
            ≡ ((merge_nonce index found (b, d)).0, some (merge_nonce index found (b, d)).1))
  unfolding scan_labels best update_nonce
  scan_labels-best id index [] b d nonce difficulty h small e =
      (nonce, refl, ap (λ t. ((merge_nonce index nonce (b, d)).0, some t)) (sym e))
  scan_labels-best id index (label ∷ labels) b d nonce difficulty (h, hs) small e =
      let next : index + id + 1 ≡ index + (id + 1) = omega arith in
      let whole : (length label == 32) ≡ true = ground (arith, h) in
      elim (Bool-cases (lex_lt label difficulty)) [
        | inl less ↦
            let at : u64 (id + index) ≡ index + id = omega arith in
            let (found, run, same) =
              scan_labels-best (id + 1) index labels b d
                (some (record { index = id; label = label })) label hs (omega arith) refl in
            (
              found,
              rw (less, whole) run,
              rw less (
                  ap
                    (λ (i : ℕ).
                      best (index + id + 1) labels
                        (some (record { index = i; label = label }), some label))
                    (sym at)
                  ∙ ap
                      (λ (i : ℕ). best i labels (
                        (merge_nonce index (some (record { index = id; label = label })) (b, d)).0,
                        some label,
                      ))
                      next
                  ∙ same),
            )
        | inr not_less ↦
            let (found, run, same) =
              scan_labels-best (id + 1) index labels b d nonce difficulty hs (omega arith) e in
            (found, rw not_less run, rw (not_less, next) same)
      ]

  -- On whole labels, a round's search goes on from the nonce and the difficulty so far as the CPU.
  pub look_for_nonce-best :
      (index : ℕ) (labels : List (List ℕ)) (vrf : Option VrfNonce × Option (List ℕ))
      → All IsLabel labels
      → index + length labels ≤ 2 ^ 64
      → look_for_nonce {E = E} index (concat labels) vrf ≡ done (best index labels vrf)
  unfolding look_for_nonce scan_for_vrf_nonce
  look_for_nonce-best index labels (b, none) h small =
      ap (λ t. done t) (sym (best_without index labels b))
  look_for_nonce-best index labels (b, some d) h small =
      let (found, run, same) = scan_labels-best 0 index labels b d none d h (omega arith) refl in
      let chunked =
        chunks_upto-concat (length (concat labels)) labels h
          (omega (arith, length-concat labels h)) in
      let start : index + 0 ≡ index = omega arith in
      rw (chunked, run)
        (ap (λ t. done t) (sym same ∙ ap (λ (i : ℕ). best i labels (b, some d)) start))

abbrev pub halves : List (List ℕ) → List ℕ
halves labels = concat (map (take 16) labels)

take-append_short : (n : ℕ) (xs ys : List ℕ) → n ≤ length xs → take n (xs ++ ys) ≡ take n xs
take-append_short zero xs ys h = refl
take-append_short (suc n) [] ys h = absurd (omega arith)
take-append_short (suc n) (x ∷ xs) ys h = ap (◌∷◌ x) (take-append_short n xs ys (omega arith))

copy_one :
    (label_id : ℕ) (label front bytes rest : List ℕ)
    → IsLabel label
    → take (label_id * 16) bytes ≡ front
    → drop (label_id * 32) bytes ≡ label ++ rest
    → copy_within bytes (label_id * 32) 16 (label_id * 16)
      ≡ (front ++ take 16 label) ++ drop (label_id * 16 + 16) bytes
copy_one label_id label front bytes rest h hf hd =
    ap₂ (λ a b. a ++ (b ++ drop (label_id * 16 + 16) bytes)) hf
      (ap (take 16) hd ∙ take-append_short 16 label rest (omega arith))
    ∙ sym (append_assoc front (take 16 label) (drop (label_id * 16 + 16) bytes))

-- `compact` on a buffer that holds `front` at its front, and `labels` from twice its length on.
compact_from :
    (label_id : ℕ) (labels : List (List ℕ)) (front bytes : List ℕ)
    → All IsLabel labels
    → take (label_id * 16) bytes ≡ front
    → length front ≡ label_id * 16
    → drop (label_id * 32) bytes ≡ concat labels
    → (take ((label_id + length labels) * 16) (compact (length labels) label_id bytes)
        ≡ front ++ halves labels)
      × (length (compact (length labels) label_id bytes) ≡ length bytes)
unfolding compact
compact_from label_id [] front bytes h hf hl hd =
    let same : label_id + 0 ≡ label_id = omega arith in
    (ap (λ (i : ℕ). take (i * 16) bytes) same ∙ hf ∙ sym (append-nil front), refl)
compact_from label_id (label ∷ labels) front bytes (h, hs) hf hl hd =
    let room : length label + length (concat labels) ≡ length bytes - label_id * 32 =
      sym (length-append label (concat labels))
      ∙ ap length (sym hd)
      ∙ length-drop (label_id * 32) bytes in
    let front' = front ++ take 16 label in
    let moved = copy_one label_id label front bytes (concat labels) h hf hd in
    let size : length front' ≡ (label_id + 1) * 16 =
      omega (arith, length-append front (take 16 label), length-take 16 label) in
    let tail = drop (label_id * 16 + 16) bytes in
    let bytes' = copy_within bytes (label_id * 32) 16 (label_id * 16) in
    let (taken, measured) =
      compact_from (label_id + 1) labels front' bytes' hs
        (ap (take ((label_id + 1) * 16)) moved
          ∙ take-append_exact front' tail ((label_id + 1) * 16) size)
        size
        (ap (drop ((label_id + 1) * 32)) moved
          ∙ sym (
              drop-drop ((label_id + 1) * 16) ((label_id + 1) * 16) _ (front' ++ tail)
                (omega arith))
          ∙ ap (drop ((label_id + 1) * 16)) (drop-append_exact front' tail _ size)
          ∙ drop-drop (label_id * 16 + 16) ((label_id + 1) * 16) _ bytes (omega arith)
          ∙ sym (drop-drop (label_id * 32) 32 ((label_id + 1) * 32) bytes (omega arith))
          ∙ ap (drop 32) hd
          ∙ drop-append_exact label (concat labels) 32 h) in
    let next : label_id + suc (length labels) ≡ label_id + 1 + length labels = omega arith in
    (
      ap (λ (i : ℕ). take (i * 16) (compact (length labels) (label_id + 1) bytes')) next
          ∙ taken
          ∙ append_assoc front (take 16 label) (halves labels),
      measured
          ∙ ap length moved
          ∙ omega (arith, length-append front' tail, length-drop (label_id * 16 + 16) bytes),
    )

pub take-compact :
    (labels : List (List ℕ))
    → All IsLabel labels
    → (take (length labels * 16) (compact (length labels) 0 (concat labels)) ≡ halves labels)
      × (length (compact (length labels) 0 (concat labels)) ≡ length labels * 32)
take-compact labels h =
    let (taken, measured) = compact_from 0 labels [] (concat labels) h refl refl refl in
    let none_before : 0 + length labels ≡ length labels = omega arith in
    (
      ap (λ (i : ℕ). take (i * 16) (compact (length labels) 0 (concat labels))) (sym none_before)
          ∙ taken,
      measured ∙ length-concat labels h,
    )
