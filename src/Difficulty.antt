-- ===== src/Difficulty.antt =====
-- src/difficulty.rs: the proving difficulty and the scaled difficulty of the proof of work.
-- 256-bit numbers come from the crate `primitive_types`; they are an interface here.
pub mod Laws
use post_rs.Base.{ℕ, ◌+◌, ◌*◌, ◌/◌, ◌%◌, ◌^◌, ◌≤◌, ◌<◌, ◌≡◌, Option, none, some, List}
use post_rs.Base.{length, ltb, leb, ◌==◌, if◌then◌else◌}
use post_rs.Base.Bytes.{be_value, IsBytes}
use post_rs.Base.Words.{Result, ok, err}

pub data DifficultyError : Type 0 where
  no_labels : DifficultyError
  too_few_labels : ℕ → ℕ → DifficultyError
  too_big : DifficultyError

-- The product is taken in 128 bits.
unfoldable pub proving_difficulty : ℕ → ℕ → Result DifficultyError ℕ
proving_difficulty k1 num_labels =
    if num_labels == 0
    then err no_labels
    else if leb num_labels k1
    then err (too_few_labels num_labels k1)
    else let difficulty = 2 ^ 64 * k1 % 2 ^ 128 / num_labels in
      if ltb difficulty (2 ^ 64) then ok difficulty else err too_big

-- `primitive_types::U256`
pub record U256 : Type 1 where
  pub Num : Type 0
  pub from_big_endian : List ℕ → Num
  pub div : Num → ℕ → Num
  pub to_big_endian : Num → List ℕ

pub record U256Laws (u256 : U256) : Type 0 where
  pub value : u256.Num → ℕ
  pub value-from_big_endian :
      (bs : List ℕ) → IsBytes 32 bs → value (u256.from_big_endian bs) ≡ be_value bs
  pub value-div : (a : u256.Num) (n : ℕ) → 0 < n → value (u256.div a n) ≡ value a / n
  pub to_big_endian-IsBytes : (a : u256.Num) → IsBytes 32 (u256.to_big_endian a)
  pub be_value-to_big_endian : (a : u256.Num) → be_value (u256.to_big_endian a) ≡ value a

-- `none` is the panic of a division by zero.
unfoldable pub scale_pow_difficulty : U256 → List ℕ → ℕ → Option (List ℕ)
scale_pow_difficulty u256 difficulty num_units =
    if num_units == 0
    then none
    else some (u256.to_big_endian (u256.div (u256.from_big_endian difficulty) num_units))
