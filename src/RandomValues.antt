-- ===== src/RandomValues.antt =====
-- src/random_values_gen.rs: random items of a vector, picked by a shuffle in place.
pub mod Shuffle
pub mod Total
pub mod Wide
pub mod Uniform
use post_rs.Base.{ℕ, zero, suc, ◌+◌, ◌-◌, ◌%◌, Bool, Option, none, some, List, [], ◌∷◌}
use post_rs.Base.{length, get_elem?, set, ltb, ◌==◌, if◌then◌else◌}
use post_rs.Base.Bytes.{from_le_bytes}
use post_rs.Base.Words.{u16}
use post_rs.Crates.{Blake3}

abbrev pub u16_max : ℕ
u16_max = 65535

-- `slice::swap`; `none` is its panic on an index out of range.
unfoldable pub swap {ℓ} : {A : Type ℓ} → List A → ℕ → ℕ → Option (List A)
swap xs i j = elim (get_elem? xs i) [
  | none ↦ none
  | some x ↦ elim (get_elem? xs j) [ none ↦ none | some y ↦ some (set (set xs i y) j x) ]
]

-- `u16::MAX - u16::MAX % remaining as u16`; `none` is the panic of a remainder by 0.
unfoldable pub max_allowed : ℕ → Option ℕ
max_allowed remaining =
    if u16 remaining == 0 then none else some (u16_max - u16_max % u16 remaining)

-- The offset that an accepted number stands for.
unfoldable pub pick : ℕ → ℕ → ℕ → Option ℕ
pick allowed remaining rand_num = if ltb rand_num allowed then some (rand_num % remaining) else none

-- What `next` does: it returns an item, `None`, panics, or draws on past the fuel.
pub data Next (A : Type 0) : Type 0 where
  item : A → Next A
  finished : Next A
  panic : Next A
  out_of_fuel : Next A

module _ (blake3 : Blake3) where
  open blake3 use {Hasher, Reader, new, update, finalize_xof, fill}

  pub record RandomValuesIterator (T : Type 0) : Type 0 where
    pub items : List T
    pub rng : Reader
    pub idx : ℕ

  unfoldable pub update_all : Hasher → List (List ℕ) → Hasher
  update_all hasher [] = hasher
  update_all hasher (part ∷ seed) = update_all (update hasher part) seed

  unfoldable pub from_seed : List (List ℕ) → Reader
  from_seed seed = finalize_xof (update_all new seed)

  unfoldable pub new_iterator : {T : Type 0} → List T → List (List ℕ) → RandomValuesIterator T
  new_iterator items seed = record { items = items; rng = from_seed seed; idx = 0 }

  unfoldable pub next_u16 : Reader → ℕ × Reader
  next_u16 rng = let (buf, rng') = fill rng 2 in (from_le_bytes buf, rng')

  -- The loop of `next`: draw until a number is accepted.
  unfoldable pub draw : ℕ → ℕ → ℕ → Reader → Option (ℕ × Reader)
  draw zero allowed remaining rng = none
  draw (suc fuel) allowed remaining rng = elim (pick allowed remaining (next_u16 rng).0) [
    | none ↦ draw fuel allowed remaining (next_u16 rng).1
    | some offset ↦ some (offset, (next_u16 rng).1)
  ]

  -- The item picked by an accepted draw is moved to the front of what remains.
  unfoldable pub take_at :
      {T : Type 0} → RandomValuesIterator T → ℕ × Reader → Next (T × RandomValuesIterator T)
  take_at it (offset, rng) = elim (swap it.items it.idx (offset + it.idx)) [
    | none ↦ panic
    | some items ↦ elim (get_elem? items it.idx) [
      | none ↦ panic
      | some value ↦ item (value, record { items = items; rng = rng; idx = it.idx + 1 })
    ]
  ]

  unfoldable pub next :
      {T : Type 0} → ℕ → RandomValuesIterator T → Next (T × RandomValuesIterator T)
  next fuel it =
      let remaining = length it.items - it.idx in
      if remaining == 0 then finished else elim (max_allowed remaining) [
        | none ↦ panic
        | some allowed ↦ elim (draw fuel allowed remaining it.rng) [
          | none ↦ out_of_fuel
          | some drawn ↦ take_at it drawn
        ]
      ]

  -- `take(count)` of the iterator, to a vector; `none` is a panic or a draw past the fuel.
  unfoldable pub take_items :
      {T : Type 0} → ℕ → ℕ → RandomValuesIterator T → Option (List T × RandomValuesIterator T)
  take_items fuel zero it = some ([], it)
  take_items fuel (suc count) it = elim (next fuel it) [
    | item (value, it') ↦ elim (take_items fuel count it') [
      | none ↦ none
      | some (values, it'') ↦ some (value ∷ values, it'')
    ]
    | finished ↦ some ([], it)
    | panic ↦ none
    | out_of_fuel ↦ none
  ]
