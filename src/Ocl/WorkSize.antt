-- ===== src/Ocl/WorkSize.antt =====
-- The size of the work that `Scrypter::new` chooses.
use post_rs.Base.{ℕ, ◌+◌, ◌-◌, ◌*◌, ◌/◌, ◌%◌, ◌^◌, ◌≤◌, ◌<◌, ◌≡◌, arith, min}
use post_rs.Base.Words.{u64, sub64}
use post_rs.Base.Outcome.{done, >>=-eq-done}
use post_rs.Base.Arith.{mul-le-mul_right}
use mathlib.Core.Path.{refl, ap, ap₂, ◌∙◌}
use native.Mathlib.Nat.{div-mul-le_self, mul-mod_left}
use post_rs.Ocl.Scrypter.{work_size, checked_div, kernel_lookup_mem_size, kernel_memory}

checked_div-eq-done :
    {E : Type 0} (a b : ℕ) {q : ℕ} → checked_div {E = E} a b ≡ done q → (0 < b) × (q ≡ a / b)
checked_div-eq-done a b e = ground arith

-- The arithmetic: rounding down twice keeps the products below the sizes.
rounded_fits :
    (total alloc lookup group groups size : ℕ)
    → groups ≡ min (alloc / lookup) (total / (lookup + 32)) / group
    → size ≡ groups * group
    → (size * lookup ≤ alloc) × (size * (lookup + 32) ≤ total)
rounded_fits total alloc lookup group groups size hg hs =
    let by_group : size ≤ min (alloc / lookup) (total / (lookup + 32)) = omega (
      arith,
      div-mul-le_self (min (alloc / lookup) (total / (lookup + 32))) group,
      ap (λ (t : ℕ). t * group) hg,
    ) in
    let by_alloc = mul-le-mul_right size (alloc / lookup) lookup (omega arith) in
    let by_total = mul-le-mul_right size (total / (lookup + 32)) (lookup + 32) (omega arith) in
    (
      omega (arith, div-mul-le_self alloc lookup),
      omega (arith, div-mul-le_self total (lookup + 32)),
    )

pub work_size_fits :
    {E : Type 0} (n device_memory max_alloc local_work_size size : ℕ)
    → n < 2 ^ 32
    → 32 ≤ device_memory
    → device_memory < 2 ^ 64
    → max_alloc < 2 ^ 64
    → work_size {E = E} n device_memory max_alloc local_work_size ≡ done size
    → (0 < local_work_size)
      × (size % local_work_size ≡ 0)
      × (size < 2 ^ 57)
      × (size * kernel_lookup_mem_size n ≤ max_alloc)
      × (32 + size * 32 + size * kernel_lookup_mem_size n ≤ device_memory)
unfolding work_size
work_size_fits n device_memory max_alloc local_work_size size hn h32 hd ha e =
    let (total, e1, f) = >>=-eq-done (checked_div (sub64 device_memory 32) (kernel_memory n)) _ e in
    let (alloc, e2, g) = >>=-eq-done (checked_div max_alloc (kernel_lookup_mem_size n)) _ f in
    let (groups, e3, h) = >>=-eq-done (checked_div (min alloc total) local_work_size) _ g in
    let (pos1, q1) = checked_div-eq-done (sub64 device_memory 32) (kernel_memory n) e1 in
    let (pos2, q2) = checked_div-eq-done max_alloc (kernel_lookup_mem_size n) e2 in
    let (pos3, q3) = checked_div-eq-done (min alloc total) local_work_size e3 in
    let no_wrap : sub64 device_memory 32 ≡ device_memory - 32 = omega arith in
    let memory : kernel_memory n ≡ kernel_lookup_mem_size n + 32 = omega arith in
    let quotients : groups
        ≡ min (max_alloc / kernel_lookup_mem_size n)
            ((device_memory - 32) / (kernel_lookup_mem_size n + 32))
          / local_work_size =
      q3 ∙ ap₂ (λ (a t : ℕ). min a t / local_work_size) q2 (q1 ∙ ap₂ ◌/◌ no_wrap memory) in
    let (by_alloc, by_total) =
      rounded_fits (device_memory - 32) max_alloc (kernel_lookup_mem_size n) local_work_size groups
        (groups * local_work_size) quotients refl in
    let same : size ≡ groups * local_work_size =
      let wrapped : u64 (groups * local_work_size) ≡ size = cc h in
      let small : groups * local_work_size ≤ max_alloc = grind arith in omega arith in
    (
      pos3,
      ap (λ (t : ℕ). t % local_work_size) same ∙ mul-mod_left groups local_work_size,
      rw same (
          omega (
            arith,
            mul-le-mul_right 128 (kernel_lookup_mem_size n) (groups * local_work_size)
                (omega arith),
          )),
      rw same by_alloc,
      rw same (omega arith),
    )
