-- ===== src/Examples/Selection.antt =====
-- The selection of random values from three.
use post_rs.Base.{ℕ, ◌/◌, ◌≡◌, refl, arith, List, [], ◌∷◌, ◌++◌, some}
use post_rs.RandomValues.{
  RandomValuesIterator, swap, pick, draw, next_u16, take_at, new_iterator, from_seed, update_all,
  max_allowed, next, take_items, item,
}
use post_rs.RandomValues.Shuffle.{take_items-perm}
use post_rs.RandomValues.Total.{nth_u16, next_total}
use post_rs.RandomValues.Uniform.{pick_uniform, picks, count_below}
use mathlib.Core.List.{Perm}
use post_rs.Examples.Crates.{blake3}

abbrev three : List ℕ
three = 10 ∷ 20 ∷ 30 ∷ []

abbrev start : RandomValuesIterator blake3 ℕ
start = record { items = three; rng = tt; idx = 0 }

abbrev second : RandomValuesIterator blake3 ℕ
second = record { items = 20 ∷ 10 ∷ 30 ∷ []; rng = tt; idx = 1 }

abbrev third : RandomValuesIterator blake3 ℕ
third = record { items = 20 ∷ 30 ∷ 10 ∷ []; rng = tt; idx = 2 }

first_runs : next blake3 5 start ≡ item (20, second)
unfolding next max_allowed draw pick next_u16 take_at swap
first_runs = refl

two_run : take_items blake3 5 2 (new_iterator blake3 three []) ≡ some (20 ∷ 30 ∷ [], third)
unfolding take_items new_iterator from_seed update_all next max_allowed draw pick next_u16 take_at
    swap
two_run = refl

take_items-perm_example : (rest : List ℕ) × Perm ((20 ∷ 30 ∷ []) ++ rest) three
take_items-perm_example = take_items-perm blake3 5 2 three [] two_run

one_drawn : nth_u16 blake3 tt 2 ≡ 1
unfolding next_u16
one_drawn = refl

next_total_example :
    (value : ℕ) × (it' : RandomValuesIterator blake3 ℕ) × (next blake3 5 start ≡ item (value, it'))
next_total_example =
    next_total blake3 5 2 start (omega arith) (omega arith) (omega arith) (omega (arith, one_drawn))

three_allowed : max_allowed 3 ≡ some 65535
unfolding max_allowed
three_allowed = refl

pick_uniform_example : count_below 65536 (picks 65535 3 2) ≡ 65535 / 3
pick_uniform_example = pick_uniform 3 65535 2 (omega arith) three_allowed (omega arith)
