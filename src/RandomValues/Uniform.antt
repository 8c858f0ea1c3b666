-- ===== src/RandomValues/Uniform.antt =====
-- The rejection step gives each offset equally often.
use post_rs.Base.{
  ℕ, zero, suc, ◌+◌, ◌-◌, ◌/◌, ◌%◌, ◌≤◌, ◌<◌, ◌≡◌, ◌∙◌, refl, sym, ap, arith, none, some, Bool,
  false,
}
use post_rs.Base.{ltb, ◌==◌, if◌then◌else◌, inl, inr, ◌⊎◌}
use post_rs.Base.Arith.{div_mod_unique}
use post_rs.Base.Words.{u16}
use native.Mathlib.Decide.{dec_lt}
use native.Mathlib.Nat.{mod-lt, div-add-mod'}
use post_rs.RandomValues.{pick, max_allowed}

-- How many numbers below `n` pass a test.
pub count_below : ℕ → (ℕ → Bool) → ℕ
count_below zero p = 0
count_below (suc n) p = count_below n p + (if p n then 1 else 0)

abbrev pub picks : ℕ → ℕ → ℕ → ℕ → Bool
picks allowed remaining offset rand_num = elim (pick allowed remaining rand_num) [
  | none ↦ false
  | some o ↦ o == offset
]

suc_div_mod :
    (a n : ℕ)
    → 0 < n
    → ((suc a / n ≡ a / n) × (suc a % n ≡ a % n + 1))
      ⊎ ((suc a / n ≡ a / n + 1) × (suc a % n ≡ 0) × (a % n + 1 ≡ n))
suc_div_mod a n pos = elim (dec_lt (a % n + 1) n) [
  | yes p ↦ inl (div_mod_unique (suc a) n (a / n) (a % n + 1) (omega (arith, div-add-mod' a n)) p)
  | no p ↦
      let wrap : a % n + 1 ≡ n = omega (arith, mod-lt a pos) in
      let (q, r) = div_mod_unique (suc a) n (a / n + 1) 0 (omega (arith, div-add-mod' a n)) pos in
      inr (q, r, wrap)
]

-- Of the first `a` numbers, one in `n` leaves the remainder `j`.
count_residue :
    (a n j : ℕ)
    → 0 < n
    → j < n
    → count_below a (λ k. k % n == j) ≡ a / n + (if ltb j (a % n) then 1 else 0)
unfolding count_below
count_residue zero n j pos hj = ground (arith, div_mod_unique 0 n 0 0)
count_residue (suc a) n j pos hj =
    ground (arith, count_residue a n j pos hj, suc_div_mod a n pos, mod-lt a pos)

count_same :
    (n : ℕ) (p q : ℕ → Bool) → ((k : ℕ) → k < n → p k ≡ q k) → count_below n p ≡ count_below n q
unfolding count_below
count_same zero p q same = refl
count_same (suc n) p q same =
    ground (arith, same n (omega arith), count_same n p q (λ k hk. same k (omega arith)))

count_cut :
    (n a : ℕ) (p q : ℕ → Bool)
    → a ≤ n
    → ((k : ℕ) → k < a → p k ≡ q k)
    → ((k : ℕ) → a ≤ k → p k ≡ false)
    → count_below n p ≡ count_below a q
unfolding count_below
count_cut zero zero p q h same none_left = refl
count_cut zero (suc a) p q h same none_left = absurd (omega arith)
count_cut (suc n) zero p q h same none_left =
    ground (arith, none_left n (omega arith), count_cut n zero p q (omega arith) same none_left)
count_cut (suc n) (suc a) p q h same none_left = elim (dec_lt a n) [
  | yes below ↦ ground (arith, none_left n below, count_cut n (suc a) p q below same none_left)
  | no top ↦
      let e : suc a ≡ suc n = omega arith in
      count_same (suc n) p q (λ k hk. same k (omega arith))
      ∙ ap (λ (t : ℕ). count_below t q) (sym e)
]

picks_below :
    (allowed remaining offset k : ℕ)
    → k < allowed
    → picks allowed remaining offset k ≡ (k % remaining == offset)
unfolding pick
picks_below allowed remaining offset k h = ground (arith, h)

picks_above :
    (allowed remaining offset k : ℕ) → allowed ≤ k → picks allowed remaining offset k ≡ false
unfolding pick
picks_above allowed remaining offset k h = ground (arith, h)

max_allowed_value :
    (remaining allowed : ℕ)
    → remaining < 65536
    → max_allowed remaining ≡ some allowed
    → allowed ≡ 65535 - 65535 % remaining
unfolding max_allowed
max_allowed_value remaining allowed narrow e =
    let same : u16 remaining ≡ remaining = omega arith in
    ground (arith, ap (λ (t : ℕ). 65535 % t) same)

-- Where from 1 to 65535 items remain, every offset below `remaining` is picked by equally many of
-- the 65536 numbers that a draw may give: by the bound divided by `remaining`.
pub pick_uniform :
    (remaining allowed offset : ℕ)
    → remaining < 65536
    → max_allowed remaining ≡ some allowed
    → offset < remaining
    → count_below 65536 (picks allowed remaining offset) ≡ allowed / remaining
pick_uniform remaining allowed offset narrow e h =
    count_cut 65536 allowed (picks allowed remaining offset) (λ k. k % remaining == offset)
      (omega (arith, bound)) (picks_below allowed remaining offset)
      (picks_above allowed remaining offset)
    ∙ count_residue allowed remaining offset (omega arith) h
    ∙ ground (arith, shape)
  where
    bound : allowed ≡ 65535 - 65535 % remaining
    bound = max_allowed_value remaining allowed narrow e

    shape : (allowed / remaining ≡ 65535 / remaining) × (allowed % remaining ≡ 0)
    shape =
        div_mod_unique allowed remaining (65535 / remaining) 0
          (omega (arith, bound, div-add-mod' 65535 remaining)) (omega arith)
