-- ===== src/Base/Arith.antt =====
-- Division with remainder, and products.
use Prim.Native.Nat.{ℕ, suc, ◌+◌, ◌*◌, ◌/◌, ◌%◌, ◌^◌, ◌≤◌, ◌<◌}
use mathlib.Core.Path.{◌≡◌, ap}
use native.Mathlib.Omega.{arith}
use native.Mathlib.Nat.{div-eq_of_lt-le, mod-eq-sub-div-mul}

pub div_mod_unique : (a n q r : ℕ) → a ≡ q * n + r → r < n → (a / n ≡ q) × (a % n ≡ r)
div_mod_unique a n q r e h =
    let quotient : a / n ≡ q = div-eq_of_lt-le n (omega arith) (omega arith) in
    (quotient, omega (arith, mod-eq-sub-div-mul a n, ap (λ (t : ℕ). t * n) quotient))

pub mul-le-mul_right : (a b p : ℕ) → a ≤ b → a * p ≤ b * p
mul-le-mul_right a b p h = grind arith

-- The places of an item and of those after it, where all items have a size.
pub next_place :
    (i n size : ℕ)
    → (i + suc n) * size < 2 ^ 64
    → (i * size + size < 2 ^ 64)
      × ((i + 1 + n) * size < 2 ^ 64)
      × ((i + 1) * size ≡ i * size + size)
next_place i n size fits =
    let step : (i + 1) * size ≡ i * size + size = grind arith in
    let same : (i + 1 + n) * size ≡ (i + suc n) * size =
      (let e : i + 1 + n ≡ i + suc n = omega arith in ap (λ (k : ℕ). k * size) e) in
    (
      omega (arith, step, fits, mul-le-mul_right (i + 1) (i + suc n) size (omega arith)),
      omega (arith, same, fits),
      step,
    )
