-- ===== src/Base/Words.antt =====
-- Machine words as numbers, `ilog2` and `is_power_of_two`, and a result type for fallible code.
use post_rs.Base.Tests.{ltb, ◌==◌, if◌then◌else◌}
use Prim.Native.Nat.{ℕ, zero, suc, ◌+◌, ◌-◌, ◌/◌, ◌%◌, ◌^◌, ◌≤◌, ◌<◌}
use mathlib.Core.Path.{◌≡◌, refl}
use mathlib.Core.Logic.{◌⊎◌, inl, inr}
use mathlib.Core.Bool.{Bool, true, false}
use mathlib.Core.Option.{Option, none, some}
use native.Mathlib.Omega.{arith}
use native.Mathlib.Nat.{pow-suc}

abbrev pub u8 : ℕ → ℕ
u8 n = n % 2 ^ 8

abbrev pub u16 : ℕ → ℕ
u16 n = n % 2 ^ 16

abbrev pub u32 : ℕ → ℕ
u32 n = n % 2 ^ 32

abbrev pub u64 : ℕ → ℕ
u64 n = n % 2 ^ 64

abbrev pub IsU32 : ℕ → Type 0
IsU32 n = n < 2 ^ 32

abbrev pub IsU64 : ℕ → Type 0
IsU64 n = n < 2 ^ 64

pub data Result {ℓ κ} (E : Type κ) (A : Type ℓ) : Type (ℓ ⊔ κ) where
  ok : A → Result E A
  err : E → Result E A

-- The position of the highest bit of a number below 2 ^ (fuel + 1).
unfoldable pub log2_loop : ℕ → ℕ → ℕ
log2_loop zero n = 0
log2_loop (suc fuel) n = let rest = log2_loop fuel (n / 2) in if ltb n 2 then 0 else suc rest

-- `n.ilog2()` on at most 64 bits; `none` is its panic at 0.
unfoldable pub ilog2 : ℕ → Option ℕ
unfolding log2_loop
ilog2 n = if n == 0 then none else some (log2_loop 63 n)

pub log2_loop_bounds :
    (fuel n : ℕ)
    → 0 < n
    → n < 2 ^ suc fuel
    → (2 ^ log2_loop fuel n ≤ n) × (n < 2 ^ suc (log2_loop fuel n)) × (log2_loop fuel n ≤ fuel)
unfolding log2_loop
log2_loop_bounds zero n h0 h = omega arith
log2_loop_bounds (suc fuel) n h0 h = ground (
  arith,
  log2_loop_bounds fuel (n / 2),
  pow-suc 2 (suc fuel),
  pow-suc 2 (log2_loop fuel (n / 2)),
  pow-suc 2 (suc (log2_loop fuel (n / 2))),
)

-- On a u64 that is not 0, `ilog2` is the exponent of the largest power of two below or at it.
pub ilog2_bounds :
    (n : ℕ)
    → 0 < n
    → IsU64 n
    → (k : ℕ) × (ilog2 n ≡ some k) × (2 ^ k ≤ n) × (n < 2 ^ suc k) × (k < 64)
unfolding ilog2
ilog2_bounds n h0 h =
    let (lo, hi, fits) = log2_loop_bounds 63 n h0 h in
    (log2_loop 63 n, ground arith, lo, hi, omega arith)

-- `n.is_power_of_two()`
unfoldable pub is_power_of_two : ℕ → Bool
is_power_of_two n = elim (ilog2 n) [ none ↦ false | some k ↦ 2 ^ k == n ]

pub power_of_two_log :
    (n : ℕ)
    → is_power_of_two n ≡ true
    → IsU64 n
    → (k : ℕ) × (ilog2 n ≡ some k) × (2 ^ k ≡ n) × (k < 64)
unfolding is_power_of_two
power_of_two_log zero e h = unfold ilog2 in cc e
power_of_two_log (suc n) e h =
    let (k, l, lo, hi, fits) = ilog2_bounds (suc n) (omega arith) h in
    (k, l, ground (arith, l), fits)

-- `a - b` of 64-bit words, which wraps.
abbrev pub sub64 : ℕ → ℕ → ℕ
sub64 a b = (a + 2 ^ 64 - b) % 2 ^ 64

pub Result-cases {ℓ κ} :
    {E : Type κ} {A : Type ℓ} (r : Result E A) → ((a : A) × (r ≡ ok a)) ⊎ ((e : E) × (r ≡ err e))
Result-cases (ok a) = inl (a, refl)
Result-cases (err e) = inr (e, refl)
