-- ===== src/RandomValues/Wide.antt =====
-- A selection that comes to a number of remaining items that a `u16` cannot tell from 0.
use post_rs.Base.{
  ℕ, zero, suc, ◌+◌, ◌-◌, ◌%◌, ◌<◌, ◌≤◌, ◌≡◌, ◌∙◌, refl, sym, ap, arith, inl, inr, some, List,
}
use post_rs.Base.{length, set, length-set, get_elem?, Option-cases, Bool-cases, ◌==◌}
use post_rs.Crates.{Blake3}
use post_rs.RandomValues.{
  RandomValuesIterator, swap, max_allowed, draw, take_at, next, Next, item, finished, panic,
  out_of_fuel, take_items,
}
use post_rs.RandomValues.Shuffle.{next-Picked}
use post_rs.RandomValues.Total.{next_wide}
use native.Mathlib.Decide.{dec_lt}

length-swap {ℓ} :
    {A : Type ℓ} (xs ys : List A) (i j : ℕ) → swap xs i j ≡ some ys → length ys ≡ length xs
unfolding swap
length-swap xs ys i j e = elim (Option-cases (get_elem? xs i)) [
  | inl missing ↦ absurd (ground (arith, missing, e))
  | inr (x, at_i) ↦ elim (Option-cases (get_elem? xs j)) [
    | inl missing ↦ absurd (ground (arith, at_i, missing, e))
    | inr (y, at_j) ↦
        let same : set (set xs i y) j x ≡ ys = ground (arith, at_i, at_j, e) in
        sym (ap length same) ∙ length-set (set xs i y) j x ∙ length-set xs i y
  ]
]

module _ (blake3 : Blake3) {T : Type 0} where
  abbrev remaining : RandomValuesIterator blake3 T → ℕ
  remaining it = length it.items - it.idx

  next-remaining :
      (fuel : ℕ) (it it' : RandomValuesIterator blake3 T) (value : T)
      → next blake3 fuel it ≡ item (value, it')
      → 0 < remaining it
      → remaining it ≡ remaining it' + 1
  next-remaining fuel it it' value e more =
      let p = next-Picked blake3 fuel it it' value e in
      let size = length-swap it.items it'.items it.idx (p.offset + it.idx) p.swapped in
      omega (arith, size, p.moved, more)

  take_at_not_finished :
      (it : RandomValuesIterator blake3 T) (drawn : ℕ × blake3.Reader)
      → ¬ (take_at blake3 it drawn ≡ finished)
  unfolding take_at
  take_at_not_finished it (offset, rng) e = ground (arith, e)

  next_not_finished :
      (fuel : ℕ) (it : RandomValuesIterator blake3 T)
      → 0 < remaining it
      → ¬ (next blake3 fuel it ≡ finished)
  unfolding next
  next_not_finished fuel it more e = elim (Bool-cases (remaining it == 0)) [
    | inl over ↦ ground (arith, over, more)
    | inr some_left ↦ elim (Option-cases (max_allowed (remaining it))) [
      | inl stop ↦ ground (arith, some_left, stop, e)
      | inr (allowed, found) ↦
          elim (Option-cases (draw blake3 fuel allowed (remaining it) it.rng)) [
            | inl stop ↦ ground (arith, some_left, found, stop, e)
            | inr (drawn, d) ↦
                take_at_not_finished it drawn (ground (arith, some_left, found, d, e))
          ]
    ]
  ]

  -- A selection that is to go on while a positive multiple of 65536 items remain never returns: where
  -- so many remain, `next` panics.
  pub take_items_wide :
      (fuel count wide : ℕ) (it it' : RandomValuesIterator blake3 T) (values : List T)
      → 0 < wide
      → wide % 65536 ≡ 0
      → wide ≤ remaining it
      → remaining it < count + wide
      → ¬ (take_items blake3 fuel count it ≡ some (values, it'))
  unfolding take_items
  take_items_wide fuel zero wide it it' values pos whole above below e = omega (arith, above, below)
  take_items_wide fuel (suc count) wide it it' values pos whole above below e =
      elim (dec_lt wide (remaining it)) [
        | no last ↦
            let exact : remaining it ≡ wide = omega (arith, above, last) in
            let left : remaining it % 65536 ≡ 0 = ap (λ (n : ℕ). n % 65536) exact ∙ whole in
            let stops = next_wide blake3 fuel it (omega (arith, exact, pos)) left in
            ground (arith, stops, e)
        | yes later ↦ go (take_items_wide fuel count) later (next blake3 fuel it) refl
      ]
    where
      go :
          ((wide : ℕ) (it it' : RandomValuesIterator blake3 T) (values : List T)
            → 0 < wide
            → wide % 65536 ≡ 0
            → wide ≤ remaining it
            → remaining it < count + wide
            → ¬ (take_items blake3 fuel count it ≡ some (values, it')))
          → wide < remaining it
          → (r : Next (T × RandomValuesIterator blake3 T)) → next blake3 fuel it ≡ r
          → ⊥
      go ih later finished f = next_not_finished fuel it (omega (arith, later)) f
      go ih later panic f = ground (arith, f, e)
      go ih later out_of_fuel f = ground (arith, f, e)
      go ih later (item (value, it1)) f =
          let left = next-remaining fuel it it1 value f (omega (arith, later)) in
          elim (Option-cases (take_items blake3 fuel count it1)) [
            | inl stops ↦ ground (arith, f, stops, e)
            | inr ((more, it2), given) ↦
                ih wide it1 it2 more pos whole (omega (arith, left, later))
                  (omega (arith, left, below)) given
          ]
