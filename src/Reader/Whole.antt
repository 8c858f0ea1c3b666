-- ===== src/Reader/Whole.antt =====
-- The batches of a file are the file.
use post_rs.Base.{
  ℕ, zero, suc, ◌+◌, ◌-◌, ◌≤◌, ◌<◌, ◌≡◌, ◌⊎◌, ◌^◌, ◌∙◌, refl, sym, ap, arith, none, some, List, [],
  ◌∷◌, ◌++◌, min, inl, inr, false,
}
use post_rs.Base.{length, take, drop, length-take, leb, ◌==◌, Bool-cases}
use post_rs.Base.Words.{u64, sub64}
use post_rs.Reader.{bytes_reader, Batch, BatchingReader, new_reader, batch_of, next, batches}
use mathlib.Core.Path.{subst}

abbrev pub contents : List Batch → List ℕ
contents [] = []
contents (batch ∷ rest) = batch.data_bytes ++ contents rest

-- The batches follow one another from a position on, none is empty and none is too long.
abbrev pub AreInARow : ℕ → ℕ → List Batch → Type 0
AreInARow batch_size pos [] = Unit {0}
AreInARow batch_size pos (batch ∷ rest) =
    (batch.pos ≡ pos)
    × (0 < length batch.data_bytes)
    × (length batch.data_bytes ≤ batch_size)
    × AreInARow batch_size (pos + length batch.data_bytes) rest

-- The reader after `k` bytes.
abbrev at : ℕ → ℕ → ℕ → ℕ → List ℕ → BatchingReader bytes_reader
at start k batch_size total_size rest = record {
  reader = rest;
  starting_pos = start;
  pos = start + k;
  batch_size = batch_size;
  total_size = total_size;
}

take-nil : (n : ℕ) → take {A = ℕ} n [] ≡ []
take-nil zero = refl
take-nil (suc n) = refl

-- The first `c` items, and of what follows as many as make `j` in all.
take_split :
    (c j n : ℕ) (xs : List ℕ)
    → c ≤ j
    → length (take c xs) ≡ n
    → take c xs ++ take (j - n) (drop c xs) ≡ take j xs
take_split zero j n xs h size = let e : j - n ≡ j = omega arith in ap (λ (k : ℕ). take k xs) e
take_split (suc c) j n [] h size = take-nil (j - n) ∙ sym (take-nil j)
take_split (suc c) zero n (x ∷ xs) h size = absurd (omega arith)
take_split (suc c) (suc j) zero (x ∷ xs) h size = absurd (omega arith)
take_split (suc c) (suc j) (suc n) (x ∷ xs) h size =
    let e : suc j - suc n ≡ j - n = omega arith in
    ap (λ (k : ℕ). x ∷ (take c xs ++ take k (drop c xs))) e
    ∙ ap (◌∷◌ x) (take_split c j n xs (omega arith) (omega arith))

batches_end :
    (fuel : ℕ) (it : BatchingReader bytes_reader)
    → (next bytes_reader it).0 ≡ none
    → batches bytes_reader (suc fuel) it ≡ []
unfolding batches
batches_end fuel it e = ground (arith, e)

batches_more :
    (fuel : ℕ) (it it' : BatchingReader bytes_reader) (batch : Batch)
    → next bytes_reader it ≡ (some batch, it')
    → batches bytes_reader (suc fuel) it ≡ batch ∷ batches bytes_reader fuel it'
unfolding batches
batches_more fuel it it' batch e = ground (arith, e)

module _ (start batch_size total_size : ℕ) (pos : 0 < batch_size)
    (fits : start + total_size < 2 ^ 64) where
  taken_fits :
      (k n : ℕ) (rest : List ℕ)
      → k < total_size
      → length (take (min batch_size (total_size - k)) rest) ≡ suc n
      → k + suc n ≤ total_size
  taken_fits k n rest h size = omega (arith, length-take (min batch_size (total_size - k)) rest)

  next_end :
      (k : ℕ) (rest : List ℕ)
      → k ≤ total_size
      → (k ≡ total_size) ⊎ (rest ≡ [])
      → (next bytes_reader (at start k batch_size total_size rest)).0 ≡ none
  unfolding next batch_of
  next_end k rest h over =
      let same : sub64 (start + k) start ≡ k = omega arith in
      elim (Bool-cases (leb total_size k)) [
        | inl all ↦ rw (same, next) (rw (all) refl)
        | inr goes ↦ elim over [
          | inl ends ↦ absurd (ground arith)
          | inr empty ↦
              rw (same, next)
                (rw (goes) (rw (empty) (rw (take-nil (min batch_size (total_size - k))) refl)))
        ]
      ]

  next_more :
      (k n : ℕ) (rest : List ℕ)
      → k < total_size
      → length (take (min batch_size (total_size - k)) rest) ≡ suc n
      → next bytes_reader (at start k batch_size total_size rest) ≡ (
        some (record { data_bytes = take (min batch_size (total_size - k)) rest; pos = start + k }),
        at start (k + suc n) batch_size total_size (drop (min batch_size (total_size - k)) rest),
      )
  unfolding next batch_of
  next_more k n rest h size =
      let same : sub64 (start + k) start ≡ k = omega arith in
      let goes : leb total_size k ≡ false = ground arith in
      let some_bytes : (suc n == 0) ≡ false = ground arith in
      let moved : u64 (start + k + suc n) ≡ start + (k + suc n) =
        omega (arith, taken_fits k n rest h size) in
      rw (same, next)
        (rw (goes) (
          rw (size) (
            rw (some_bytes) (
              ap
                (λ (p : ℕ). (
                  some (record {
                    data_bytes = take (min batch_size (total_size - k)) rest;
                    pos = start + k;
                  }),
                  record (at start k batch_size total_size
                      (drop (min batch_size (total_size - k)) rest)) { pos = p },
                ))
                moved))))

  nothing_taken :
      (k : ℕ) (rest : List ℕ)
      → k ≤ total_size
      → length (take (min batch_size (total_size - k)) rest) ≡ 0
      → (k ≡ total_size) ⊎ (rest ≡ [])
  nothing_taken k [] h size = inr refl
  nothing_taken k (b ∷ rest) h size =
      inl (omega (arith, length-take (min batch_size (total_size - k)) (b ∷ rest)))

  abbrev AreRest : ℕ → List ℕ → List Batch → Type 0
  AreRest k rest bs =
      (contents bs ≡ take (total_size - k) rest) × AreInARow batch_size (start + k) bs

  none_left : (k : ℕ) (rest : List ℕ) → (k ≡ total_size) ⊎ (rest ≡ []) → AreRest k rest []
  none_left k rest (inl ends) =
      let none_more : 0 ≡ total_size - k = omega arith in
      (ap (λ (n : ℕ). take n rest) none_more, tt)
  none_left k rest (inr empty) =
      (sym (take-nil (total_size - k)) ∙ ap (take (total_size - k)) (sym empty), tt)

  batches-AreRest :
      (fuel k : ℕ) (rest : List ℕ)
      → k ≤ total_size
      → total_size - k < fuel
      → AreRest k rest (batches bytes_reader fuel (at start k batch_size total_size rest))
  batches-AreRest zero k rest h enough = absurd (omega arith)
  batches-AreRest (suc fuel) k rest h enough = go _ refl (batches-AreRest fuel)
    where
      go :
          (m : ℕ)
          → length (take (min batch_size (total_size - k)) rest) ≡ m
          → ((k : ℕ) (rest : List ℕ)
              → k ≤ total_size
              → total_size - k < fuel
              → AreRest k rest (batches bytes_reader fuel (at start k batch_size total_size rest)))
          → AreRest k rest (batches bytes_reader (suc fuel) (at start k batch_size total_size rest))
      go zero size ih =
          let over = nothing_taken k rest h size in
          subst (AreRest k rest) (sym (batches_end fuel _ (next_end k rest h over)))
            (none_left k rest over)
      go (suc n) size ih =
          let cut = length-take (min batch_size (total_size - k)) rest in
          let below : k < total_size = omega (arith, cut) in
          let whole = taken_fits k n rest below size in
          let (all, row) =
            ih (k + suc n) (drop (min batch_size (total_size - k)) rest) whole (omega arith) in
          let left : total_size - (k + suc n) ≡ total_size - k - suc n = omega arith in
          let place : start + (k + suc n)
              ≡ start + k + length (take (min batch_size (total_size - k)) rest) =
            omega arith in
          subst (AreRest k rest) (sym (batches_more fuel _ _ _ (next_more k n rest below size))) (
            ap (◌++◌ (take (min batch_size (total_size - k)) rest))
                  (all ∙ ap (λ (j : ℕ). take j (drop (min batch_size (total_size - k)) rest)) left)
                ∙ take_split (min batch_size (total_size - k)) (total_size - k) (suc n) rest
                    (omega arith) size,
            (
              refl,
              omega arith,
              omega (arith, cut),
              subst
                  (λ p. AreInARow batch_size p (
                    batches bytes_reader fuel (
                      at start (k + suc n) batch_size total_size
                        (drop (min batch_size (total_size - k)) rest))))
                  place row,
            ),
          )

  -- A reader of a file, with batches of at least one byte, and positions that fit in 64 bits:
  -- within as many calls of `next` as there are bytes to read, and one more, it gives the bytes of
  -- the file up to the total size, in batches that follow one another from its first position on,
  -- none empty and none longer than the batch size.
  pub batches_lem :
      (fuel : ℕ) (bytes : List ℕ)
      → total_size < fuel
      → let given =
          batches bytes_reader fuel (new_reader bytes_reader bytes start batch_size total_size) in
        (contents given ≡ take total_size bytes) × AreInARow batch_size start given
  unfolding new_reader
  batches_lem fuel bytes enough =
      let none_read : start ≡ start + 0 = omega arith in
      let all : total_size - 0 ≡ total_size = omega arith in
      let (whole, row) = batches-AreRest fuel 0 bytes (omega arith) (omega arith) in
      let same : at start 0 batch_size total_size bytes
          ≡ new_reader bytes_reader bytes start batch_size total_size =
        ap (λ (p : ℕ). record (at start 0 batch_size total_size bytes) { pos = p })
          (sym none_read) in
      subst
        (λ t.
          (contents (batches bytes_reader fuel t) ≡ take total_size bytes)
          × AreInARow batch_size start (batches bytes_reader fuel t))
        same
        (
          whole ∙ ap (λ (j : ℕ). take j bytes) all,
          subst
              (λ p.
                AreInARow batch_size p
                  (batches bytes_reader fuel (at start 0 batch_size total_size bytes)))
              (sym none_read) row,
        )
