-- ===== src/Ocl/Bounds.antt =====
-- scrypt-ocl/src/lib.rs: the sizes of a new `Scrypter` and of its buffers.
use post_rs.Base.{List, ℕ, ◌+◌, ◌*◌, ◌/◌, ◌%◌, ◌^◌, ◌≤◌, ◌<◌, ◌≡◌, arith}
use post_rs.Base.{length, replicate, length-replicate}
use post_rs.Base.Words.{ok, u32, u64}
use post_rs.Ocl.Interface.{
  OpenCl, info_global_mem_size, global_mem_size, info_max_mem_alloc_size, max_mem_alloc_size,
  info_max_compute_units, build_kernel, info_preferred_work_group_size_multiple,
  info_work_group_size,
}
use post_rs.Ocl.Providers.{lift_ocl}
use post_rs.Ocl.Round.{IsSized}
use post_rs.Base.Outcome.{done, Holds, bind-Holds, Holds-done}
use mathlib.Core.Path.{refl, ap}
use post_rs.Ocl.Scrypter.{
  Scrypter, new_scrypter, work_size, cast_max_compute_units, cast_preferred_multiple, build_buffers,
  kernel_lookup_mem_size,
}
use post_rs.Ocl.Buffers.{AreBuilt, build_buffers-AreBuilt}
use post_rs.Ocl.WorkSize.{work_size_fits}

-- A scrypter with these buffers.
abbrev made : (ocl : OpenCl) → ℕ → ℕ → ℕ → ocl.Queue × List ℕ × List ℕ × List ℕ → Scrypter ocl
made ocl n size multiple (queue, input, output, lookup) = record {
  queue = queue;
  kernel = record { n = u32 n; index = 0; global_work_size = size; local_work_size = multiple };
  input = input;
  output = output;
  lookup = lookup;
  global_work_size = size;
  preferred_wg_size_mult = multiple;
  labels_buffer = replicate (u64 (size * 32)) 0;
}

buffer_room :
    (size : ℕ) → size < 2 ^ 57 → size * 32 ≤ length {A = ℕ} (replicate (u64 (size * 32)) 0)
buffer_room size h = omega (arith, length-replicate {A = ℕ} (u64 (size * 32)) 0)

u32_fits : (n : ℕ) → n < 2 ^ 32 → u32 n ≡ n
u32_fits n h = omega arith

-- The sizes of a scrypter for parameter `n`, on a device with these sizes of memory: the work, in
-- whole groups, and the bytes of its buffers, with a lookup table of 128 bytes for every second of
-- `n` steps for each label.
abbrev pub IsFitting : (ocl : OpenCl) → ℕ → ℕ → ℕ → Scrypter ocl → Type 0
IsFitting ocl n memory max_alloc s =
    IsSized ocl n s.global_work_size s.preferred_wg_size_mult s
    × (s.kernel.global_work_size ≡ s.global_work_size)
    × (0 < s.preferred_wg_size_mult)
    × (s.global_work_size % s.preferred_wg_size_mult ≡ 0)
    × (s.global_work_size < 2 ^ 57)
    × (length s.input * 4 ≡ 32)
    × (length s.output ≡ s.global_work_size * 32)
    × (length s.lookup * 4 ≡ s.global_work_size * (n / 2 * 128))
    × (length s.lookup * 4 ≤ max_alloc)
    × (length s.input * 4 + length s.output + length s.lookup * 4 ≤ memory)

-- A lookup buffer for whole tables, counted in words of four bytes.
lookup_words :
    (n size max_alloc words : ℕ)
    → n < 2 ^ 32
    → max_alloc < 2 ^ 64
    → size * kernel_lookup_mem_size n ≤ max_alloc
    → words ≡ u64 (size * kernel_lookup_mem_size n) / 4
    → (words * 4 ≡ size * (n / 2 * 128)) × (size * kernel_lookup_mem_size n ≡ size * (n / 2 * 128))
lookup_words n size max_alloc words hn ha fits e =
    let table : kernel_lookup_mem_size n ≡ n / 2 * 128 = omega arith in
    let tables : size * kernel_lookup_mem_size n ≡ size * (n / 2 * 128) =
      ap (λ (t : ℕ). size * t) table in
    let quarters : size * (n / 2 * 128) ≡ size * (n / 2 * 32) * 4 = grind arith in
    (omega (arith, tables, quarters), tables)

made-IsFitting :
    (ocl : OpenCl) (n memory max_alloc size multiple : ℕ)
    (buffers : ocl.Queue × List ℕ × List ℕ × List ℕ)
    → n < 2 ^ 32
    → max_alloc < 2 ^ 64
    → (0 < multiple)
      × (size % multiple ≡ 0)
      × (size < 2 ^ 57)
      × (size * kernel_lookup_mem_size n ≤ max_alloc)
      × (32 + size * 32 + size * kernel_lookup_mem_size n ≤ memory)
    → AreBuilt (u64 (size * 32)) (u64 (size * kernel_lookup_mem_size n)) buffers
    → IsFitting ocl n memory max_alloc (made ocl n size multiple buffers)
made-IsFitting ocl n memory max_alloc size multiple (queue, input, output, lookup) hn ha
      (pos, whole, small, by_alloc, by_total) (words_in, bytes_out, words_lookup) =
    let (tables, same) =
      lookup_words n size max_alloc (length lookup) hn ha by_alloc words_lookup in
    let out : length output ≡ size * 32 = omega (arith, bytes_out, small) in
    (
      record {
        has_n = u32_fits n hn;
        has_group = refl;
        has_size = refl;
        has_multiple = refl;
        room = buffer_room size small;
        output_room = omega (arith, out);
      },
      refl,
      pos,
      whole,
      small,
      omega (arith, words_in),
      out,
      tables,
      omega (arith, tables, same, by_alloc),
      omega (arith, words_in, out, tables, same, by_total),
    )

module _ (ocl : OpenCl) (E : Type 0) (platform : ocl.Platform) (device : ocl.Device)
    (n memory max_alloc : ℕ) where
  P : Scrypter ocl → Type 0
  P = IsFitting ocl n memory max_alloc

  new_scrypter-Holds :
      n < 2 ^ 32
      → 32 ≤ memory
      → memory < 2 ^ 64
      → max_alloc < 2 ^ 64
      → ocl.device_info device info_global_mem_size ≡ ok (global_mem_size memory)
      → ocl.device_info device info_max_mem_alloc_size ≡ ok (max_mem_alloc_size max_alloc)
      → Holds P (new_scrypter ocl {E = E} platform device n)
  unfolding new_scrypter P
  new_scrypter-Holds hn h32 hm ha has_memory has_alloc =
      rw (has_memory, has_alloc)
        (bind-Holds P (lift_ocl ocl {E = E} (ocl.device_info device info_max_compute_units)) _
          (λ units_info e1.
            bind-Holds P (cast_max_compute_units ocl {E = E} units_info) _ (λ units e2.
              bind-Holds P (lift_ocl ocl {E = E} (ocl.max_wg_size device)) _ (λ max_wg_size e3.
                bind-Holds P (lift_ocl ocl {E = E} (ocl.pro_que platform device)) _ (λ q1 e4.
                  bind-Holds P (lift_ocl ocl {E = E} (ocl.call build_kernel q1)) _ (λ q2 e5.
                    bind-Holds P
                      (lift_ocl ocl {E = E}
                        (ocl.wg_info q2 device info_preferred_work_group_size_multiple))
                      _
                      (λ multiple_info e6.
                        bind-Holds P (cast_preferred_multiple ocl {E = E} multiple_info) _
                          (λ multiple e7.
                            bind-Holds P
                              (lift_ocl ocl {E = E} (ocl.wg_info q2 device info_work_group_size)) _
                              (λ kernel_wg_size e8.
                                bind-Holds P (work_size n memory max_alloc multiple) _ (λ size e9.
                                  bind-Holds P
                                    (build_buffers ocl {E = E} (u64 (size * 32))
                                      (u64 (size * kernel_lookup_mem_size n)) q2)
                                    _
                                    (λ buffers e10.
                                      made-IsFitting ocl n memory max_alloc size multiple buffers hn
                                        ha
                                        (work_size_fits n memory max_alloc multiple size hn h32 hm
                                          ha e9)
                                        (Holds-done _
                                          (build_buffers-AreBuilt ocl E (u64 (size * 32))
                                            (u64 (size * kernel_lookup_mem_size n)) q2)
                                          e10))))))))))))

  -- What `Scrypter::new` gives for an `n` of 32 bits, on a device whose memory and largest allocation
  -- are 64-bit numbers, with at least 32 bytes of memory: the kernel has `n`, the work and its groups;
  -- the work is in whole groups, of at least one label, and below 2 ^ 57 labels; the buffer for the input
  -- has 32 bytes, that for the output 32 bytes for each label of the work, that for the labels at
  -- least as many, and that for lookup `n / 2 * 128` bytes for each; the buffer for lookup is not above
  -- the largest allocation, and those for input, output and lookup together are not above the memory.
  pub new_scrypter-IsFitting :
      (s : Scrypter ocl)
      → n < 2 ^ 32
      → 32 ≤ memory
      → memory < 2 ^ 64
      → max_alloc < 2 ^ 64
      → ocl.device_info device info_global_mem_size ≡ ok (global_mem_size memory)
      → ocl.device_info device info_max_mem_alloc_size ≡ ok (max_mem_alloc_size max_alloc)
      → new_scrypter ocl {E = E} platform device n ≡ done s
      → IsFitting ocl n memory max_alloc s
  unfolding P
  new_scrypter-IsFitting s hn h32 hm ha has_memory has_alloc e =
      Holds-done P (new_scrypter-Holds hn h32 hm ha has_memory has_alloc) e
