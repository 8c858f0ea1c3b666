-- ===== src/Ocl/Work.antt =====
-- Rounding the work of a round up to whole groups.
use post_rs.Base.{ℕ, zero, suc, ◌+◌, ◌-◌, ◌*◌, ◌/◌, ◌%◌, ◌^◌, ◌≤◌, ◌<◌, ◌≡◌, arith}
use post_rs.Base.Words.{u64, sub64}
use post_rs.Base.Outcome.{done}
use post_rs.Ocl.Scrypt.{gws_for}
use post_rs.Base.Arith.{mul-le-mul_right}
use native.Mathlib.Nat.{div-lt_iff_lt-mul, lt-div-mul-add, mul-mod_left}
use native.Mathlib.Decide.{dec_lt}

-- Rounded up to whole groups, the work still fits.
rounded_up :
    (m size group groups : ℕ)
    → 0 < group
    → size ≡ groups * group
    → m < size
    → (group ≤ size)
      × (m ≤ (m + group - 1) / group * group)
      × ((m + group - 1) / group * group ≤ size)
rounded_up m size group zero pos whole less = absurd (omega arith)
rounded_up m size group (suc more) pos whole less =
    let one_group = mul-le-mul_right 1 (suc more) group (omega arith) in
    let up = lt-div-mul-add {a = m + group - 1} {b = group} pos in
    let next : (suc more + 1) * group ≡ size + group = grind arith in
    let few : (m + group - 1) / group < suc more + 1 =
      (div-lt_iff_lt-mul {k = group} {x = m + group - 1} {y = suc more + 1} pos).1 (omega arith) in
    let fits = mul-le-mul_right ((m + group - 1) / group) (suc more) group (omega arith) in
    (omega arith, omega arith, omega arith)

pub gws_for-IsWhole :
    {E : Type 0} (m size group groups : ℕ)
    → 0 < group
    → size ≡ groups * group
    → size < 2 ^ 60
    → m ≤ size
    → (gws : ℕ) × (gws_for {E = E} m size group ≡ done gws)
      × (gws % group ≡ 0)
      × (m ≤ gws)
      × (gws ≤ size)
unfolding gws_for
gws_for-IsWhole m size group groups pos whole small le = elim (dec_lt m size) [
  | yes less ↦
      let (one, up, down) = rounded_up m size group groups pos whole less in
      let no_wrap : sub64 (m + group) 1 ≡ m + group - 1 = omega arith in
      let kept : u64 ((m + group - 1) / group * group) ≡ (m + group - 1) / group * group =
        omega arith in
      (
        (m + group - 1) / group * group,
        ground (arith, no_wrap, kept),
        mul-mod_left ((m + group - 1) / group) group,
        up,
        down,
      )
  | no not_less ↦ (size, ground arith, rw whole (mul-mod_left groups group), le, omega arith)
]
