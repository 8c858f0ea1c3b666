-- ===== src/Difficulty/Laws.antt =====
-- When `proving_difficulty` succeeds, and what the scaled difficulty of the proof of work accepts.
use post_rs.Base.{ℕ, ◌+◌, ◌*◌, ◌/◌, ◌%◌, ◌^◌, ◌≤◌, ◌<◌, ◌≡◌, ◌↔◌, sym, ap, arith, true, ◌∙◌}
use post_rs.Base.{some, List, ltb, ltb→lt, lt→ltb}
use post_rs.Base.Bytes.{be_value, IsBytes, lex_lt, lex_lt-be_value}
use post_rs.Base.Words.{IsU32, ok}
use post_rs.Difficulty.{proving_difficulty, U256, U256Laws, scale_pow_difficulty}
use native.Mathlib.Nat.{div-add-mod, mod-lt}
use native.Mathlib.Decide.{dec_lt}

div_floor : (a n d : ℕ) → 0 < n → (a / n ≡ d) ↔ ((d * n ≤ a) × (a < (d + 1) * n))
div_floor a n d h = (
  λ e. grind (arith, div-add-mod a n, mod-lt a h),
  λ p. grind (arith, div-add-mod a n, mod-lt a h),
)

pub quotient_fits : (d n m k : ℕ) → 0 < m → d * n ≤ m * k → k < n → d < m
quotient_fits d n m k pos p h = elim (dec_lt d m) [ yes q ↦ q | no q ↦ absurd (bad (omega arith)) ]
  where
    bad : m ≤ d → ⊥
    bad le = grind arith

no_wrap : (k1 : ℕ) → IsU32 k1 → 2 ^ 64 * k1 % 2 ^ 128 ≡ 2 ^ 64 * k1
no_wrap k1 h = omega arith

-- For a 32-bit `k1` the difficulty is the quotient of 2 ^ 64 * k1 by the number of labels, rounded
-- down. There is one exactly when there are more labels than `k1`.
pub proving_difficulty_ok_iff :
    (k1 num_labels d : ℕ)
    → IsU32 k1
    → (proving_difficulty k1 num_labels ≡ ok d)
      ↔ ((k1 < num_labels) × (d * num_labels ≤ 2 ^ 64 * k1) × (2 ^ 64 * k1 < (d + 1) * num_labels))
unfolding proving_difficulty
proving_difficulty_ok_iff k1 num d h = (
  λ e. ground (arith, div_floor (2 ^ 64 * k1) num d),
  λ p. ground (
    arith,
    no_wrap k1 h,
    (div_floor (2 ^ 64 * k1) num d (omega arith)).1 (p.1, p.2),
    quotient_fits d num (2 ^ 64) k1 (omega arith) p.1 p.0,
  ),
)

lt-div_iff : (x a n : ℕ) → 0 < n → (x < a / n) ↔ ((x + 1) * n ≤ a)
lt-div_iff x a n h = (
  λ p. grind (arith, div-add-mod a n, mod-lt a h),
  λ p. grind (arith, div-add-mod a n, mod-lt a h),
)

module _ (u256 : U256) (laws : U256Laws u256) where
  -- For at least one unit, a 32-byte hash is below the scaled difficulty exactly when the
  -- number of units times one more than the hash fits in the unscaled difficulty, both arrays read
  -- as big-endian numbers.
  pub lex_lt-scale_pow_difficulty :
      (difficulty hash : List ℕ) (num_units : ℕ)
      → IsBytes 32 difficulty
      → IsBytes 32 hash
      → 0 < num_units
      → (scaled : List ℕ) × (scale_pow_difficulty u256 difficulty num_units ≡ some scaled)
        × ((lex_lt hash scaled ≡ true) ↔ ((be_value hash + 1) * num_units ≤ be_value difficulty))
  unfolding scale_pow_difficulty
  lex_lt-scale_pow_difficulty difficulty hash num_units hd hh h =
      let q = u256.div (u256.from_big_endian difficulty) num_units in
      let value : be_value (u256.to_big_endian q) ≡ be_value difficulty / num_units =
        laws.be_value-to_big_endian q
        ∙ laws.value-div _ num_units h
        ∙ ap (λ (t : ℕ). t / num_units) (laws.value-from_big_endian difficulty hd) in
      let shape = laws.to_big_endian-IsBytes q in
      let order : lex_lt hash (u256.to_big_endian q)
          ≡ ltb (be_value hash) (be_value difficulty / num_units) =
        lex_lt-be_value hash _ (hh.0 ∙ sym shape.0) hh.1 shape.1 ∙ ap (ltb (be_value hash)) value in
      let bound = lt-div_iff (be_value hash) (be_value difficulty) num_units h in
      (
        u256.to_big_endian q,
        ground arith,
        (λ e. bound.0 (ltb→lt _ _ (sym order ∙ e)), λ p. order ∙ lt→ltb _ _ (bound.1 p)),
      )
