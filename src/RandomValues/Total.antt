-- ===== src/RandomValues/Total.antt =====
-- When `next` returns: the rejection loop, and the width of the modulus.
use post_rs.Base.{
  get_elem?_total, ℕ, zero, suc, ◌+◌, ◌-◌, ◌%◌, ◌<◌, ◌≡◌, ◌∙◌, arith, some, List, false,
}
use post_rs.Base.{length, set, ltb, Bool-cases, inl, inr, length-set}
use post_rs.Base.Words.{u16}
use post_rs.RandomValues.{swap, pick, max_allowed, item, panic, RandomValuesIterator}
use post_rs.RandomValues.{next_u16, draw, take_at, next}
use post_rs.Crates.{Blake3}
use native.Mathlib.Nat.{mod-lt}

swap_total {ℓ} :
    {A : Type ℓ} (xs : List A) (i j : ℕ)
    → i < length xs
    → j < length xs
    → (ys : List A) × (swap xs i j ≡ some ys) × (length ys ≡ length xs)
unfolding swap
swap_total xs i j hi hj =
    let (x, ex) = get_elem?_total xs i hi in
    let (y, ey) = get_elem?_total xs j hj in
    (set (set xs i y) j x, ground (arith, ex, ey), length-set (set xs i y) j x ∙ length-set xs i y)

max_allowed_narrow : (m : ℕ) → 0 < m → m < 65536 → max_allowed m ≡ some (65535 - 65535 % m)
unfolding max_allowed
max_allowed_narrow m pos h = let same : u16 m ≡ m = omega arith in rw same (ground arith)

module _ (blake3 : Blake3) where
  -- The number that the rng gives after `i` others.
  abbrev pub nth_u16 : blake3.Reader → ℕ → ℕ
  nth_u16 rng zero = (next_u16 blake3 rng).0
  nth_u16 rng (suc i) = nth_u16 (next_u16 blake3 rng).1 i

  draw_total :
      (fuel i allowed remaining : ℕ) (rng : blake3.Reader)
      → 0 < remaining
      → i < fuel
      → nth_u16 rng i < allowed
      → (offset : ℕ) × (rng' : blake3.Reader) × (draw blake3 fuel allowed remaining rng
          ≡ some (offset, rng'))
        × (offset < remaining)
  unfolding draw pick
  draw_total zero i allowed remaining rng pos h accepted = absurd (omega arith)
  draw_total (suc fuel) i allowed remaining rng pos h accepted =
      elim (Bool-cases (ltb (next_u16 blake3 rng).0 allowed)) [
        | inl first ↦ (
          (next_u16 blake3 rng).0 % remaining,
          (next_u16 blake3 rng).1,
          ground (arith, first),
          omega (arith, mod-lt (next_u16 blake3 rng).0 pos),
        )
        | inr rejected ↦ later i h accepted rejected (draw_total fuel)
      ]
    where
      later :
          (i : ℕ)
          → i < suc fuel
          → nth_u16 rng i < allowed
          → ltb (next_u16 blake3 rng).0 allowed ≡ false
          → ((i allowed remaining : ℕ) (rng : blake3.Reader)
              → 0 < remaining
              → i < fuel
              → nth_u16 rng i < allowed
              → (offset : ℕ) × (rng' : blake3.Reader) × (draw blake3 fuel allowed remaining rng
                  ≡ some (offset, rng'))
                × (offset < remaining))
          → (offset : ℕ) × (rng' : blake3.Reader) × (draw blake3 (suc fuel) allowed remaining rng
              ≡ some (offset, rng'))
            × (offset < remaining)
      later zero h accepted rejected ih = absurd (ground (arith, rejected, accepted))
      later (suc i) h accepted rejected ih =
          let (offset, rng', e, lt) =
            ih i allowed remaining (next_u16 blake3 rng).1 pos (omega arith) accepted in
          (offset, rng', ground (arith, rejected, e), lt)

  module _ {T : Type 0} where
    take_at_total :
        (it : RandomValuesIterator blake3 T) (offset : ℕ) (rng : blake3.Reader)
        → offset + it.idx < length it.items
        → (value : T) × (it' : RandomValuesIterator blake3 T) × (take_at blake3 it (offset, rng)
            ≡ item (value, it'))
    unfolding take_at
    take_at_total it offset rng h =
        let (items, e, l) = swap_total it.items it.idx (offset + it.idx) (omega arith) h in
        let (value, f) = get_elem?_total items it.idx (omega arith) in
        (value, record { items = items; rng = rng; idx = it.idx + 1 }, ground (arith, e, f))

    -- While from 1 to 65535 items remain, `next` gives one as soon as a number of the rng within
    -- the fuel is below the bound 65535 - 65535 % remaining.
    pub next_total :
        (fuel i : ℕ) (it : RandomValuesIterator blake3 T)
        → it.idx < length it.items
        → length it.items - it.idx < 65536
        → i < fuel
        → nth_u16 it.rng i < 65535 - 65535 % (length it.items - it.idx)
        → (value : T) × (it' : RandomValuesIterator blake3 T) × (next blake3 fuel it
            ≡ item (value, it'))
    unfolding next
    next_total fuel i it more narrow h accepted =
        let m : ℕ = length it.items - it.idx in
        let (offset, rng, e, lt) =
          draw_total fuel i (65535 - 65535 % m) m it.rng (omega arith) h accepted in
        let (value, it', f) = take_at_total it offset rng (omega arith) in
        (value, it', ground (arith, e, f, max_allowed_narrow m (omega arith) narrow))

    pub next_wide :
        (fuel : ℕ) (it : RandomValuesIterator blake3 T)
        → it.idx < length it.items
        → (length it.items - it.idx) % 65536 ≡ 0
        → next blake3 fuel it ≡ panic
    unfolding next max_allowed
    next_wide fuel it more wide = ground arith
