-- ===== src/Ocl/Scrypter.antt =====
-- scrypt-ocl/src/lib.rs: `Scrypter` and `Scrypter::new`, which sizes the work by the memory of the
-- device. Sizes are 64-bit and wrap, as in a release build; a division by 0 panics.
use post_rs.Base.{ℕ, ◌+◌, ◌*◌, ◌/◌, List, min}
use post_rs.Base.{replicate, ◌==◌, if◌then◌else◌}
use post_rs.Base.Words.{u32, u64, sub64}
use post_rs.Base.Outcome.{Outcome, done, panicked, ◌>>=◌}
use post_rs.Ocl.Interface.{
  OpenCl, info_global_mem_size, info_max_mem_alloc_size, info_max_compute_units, DeviceInfoResult,
  global_mem_size, max_mem_alloc_size, max_compute_units, info_preferred_work_group_size_multiple,
  info_work_group_size, KernelInfoResult, preferred_work_group_size_multiple, build_kernel,
  build_buffer, set_arg, Kernel,
}
use post_rs.Ocl.Providers.{ScryptError, lift_ocl}

-- The queue is the state of the driver; `input`, `output` and `lookup` are what the buffers hold. The
-- last is the third argument of the kernel, which keeps it.
pub record Scrypter (ocl : OpenCl) : Type 0 where
  pub queue : ocl.Queue
  pub kernel : Kernel
  pub input : List ℕ
  pub output : List ℕ
  pub lookup : List ℕ
  pub global_work_size : ℕ
  pub preferred_wg_size_mult : ℕ
  pub labels_buffer : List ℕ

abbrev pub lookup_gap : ℕ
lookup_gap = 2

abbrev pub scrypt_mem : ℕ
scrypt_mem = 128

abbrev pub input_size : ℕ
input_size = 32

-- A quotient that panics at 0.
abbrev pub checked_div : {E : Type 0} → ℕ → ℕ → Outcome E ℕ
checked_div a b = if b == 0 then panicked else done (a / b)

abbrev pub kernel_lookup_mem_size : ℕ → ℕ
kernel_lookup_mem_size n = u64 (n / lookup_gap * scrypt_mem)

abbrev pub kernel_memory : ℕ → ℕ
kernel_memory n = u64 (kernel_lookup_mem_size n + 32)

-- The number of labels made at once.
unfoldable pub work_size : {E : Type 0} → ℕ → ℕ → ℕ → ℕ → Outcome E ℕ
work_size n device_memory max_alloc local_work_size = do
  based_on_total_mem ← checked_div (sub64 device_memory input_size) (kernel_memory n)
  based_on_max_mem_alloc_size ← checked_div max_alloc (kernel_lookup_mem_size n)
  let max_global_work_size = min based_on_max_mem_alloc_size based_on_total_mem
  groups ← checked_div max_global_work_size local_work_size
  done (u64 (groups * local_work_size))

module _ (ocl : OpenCl) {E : Type 0} where
  abbrev pub cast_global_mem_size : DeviceInfoResult ocl.DeviceType → Outcome (ScryptError ocl E) ℕ
  cast_global_mem_size (global_mem_size size) = done size
  cast_global_mem_size r = panicked

  abbrev pub cast_max_mem_alloc_size :
      DeviceInfoResult ocl.DeviceType → Outcome (ScryptError ocl E) ℕ
  cast_max_mem_alloc_size (max_mem_alloc_size size) = done size
  cast_max_mem_alloc_size r = panicked

  abbrev pub cast_max_compute_units :
      DeviceInfoResult ocl.DeviceType → Outcome (ScryptError ocl E) ℕ
  cast_max_compute_units (max_compute_units units) = done units
  cast_max_compute_units r = panicked

  abbrev pub cast_preferred_multiple : KernelInfoResult → Outcome (ScryptError ocl E) ℕ
  cast_preferred_multiple (preferred_work_group_size_multiple multiple) = done multiple
  cast_preferred_multiple r = panicked

  -- A buffer of this number of elements.
  abbrev pub allocate : ℕ → ocl.Queue → Outcome (ScryptError ocl E) (ocl.Queue × List ℕ)
  allocate len queue = do
    queue ← lift_ocl ocl (ocl.call (build_buffer len) queue)
    done (queue, replicate len 0)

  -- The buffers for input (u32), output (u8) and lookup (u32), and the arguments. The two sizes are
  -- in bytes.
  abbrev pub build_buffers :
      ℕ → ℕ → ocl.Queue → Outcome (ScryptError ocl E) (ocl.Queue × List ℕ × List ℕ × List ℕ)
  build_buffers output_size lookup_size queue = do
    (queue, input) ← allocate (input_size / 4) queue
    (queue, output) ← allocate output_size queue
    (queue, lookup) ← allocate (lookup_size / 4) queue
    queue ← lift_ocl ocl (ocl.call (set_arg 2) queue)
    queue ← lift_ocl ocl (ocl.call (set_arg 3) queue)
    queue ← lift_ocl ocl (ocl.call (set_arg 4) queue)
    done (queue, input, output, lookup)

  -- `Scrypter::new`
  unfoldable pub new_scrypter :
      ocl.Platform → ocl.Device → ℕ → Outcome (ScryptError ocl E) (Scrypter ocl)
  new_scrypter platform device n = do
    memory_info ← lift_ocl ocl (ocl.device_info device info_global_mem_size)
    device_memory ← cast_global_mem_size memory_info
    alloc_info ← lift_ocl ocl (ocl.device_info device info_max_mem_alloc_size)
    max_alloc ← cast_max_mem_alloc_size alloc_info
    units_info ← lift_ocl ocl (ocl.device_info device info_max_compute_units)
    max_units ← cast_max_compute_units units_info
    max_wg_size ← lift_ocl ocl (ocl.max_wg_size device)
    queue ← lift_ocl ocl (ocl.pro_que platform device)
    queue ← lift_ocl ocl (ocl.call build_kernel queue)
    multiple_info ← lift_ocl ocl (ocl.wg_info queue device info_preferred_work_group_size_multiple)
    preferred_wg_size_mult ← cast_preferred_multiple multiple_info
    kernel_wg_size ← lift_ocl ocl (ocl.wg_info queue device info_work_group_size)
    global_work_size ← work_size n device_memory max_alloc preferred_wg_size_mult
    (queue, input, output, lookup) ←
        build_buffers (u64 (global_work_size * 32))
          (u64 (global_work_size * kernel_lookup_mem_size n)) queue
    done (record {
      queue = queue;
      kernel = record {
        n = u32 n;
        index = 0;
        global_work_size = global_work_size;
        local_work_size = preferred_wg_size_mult;
      };
      input = input;
      output = output;
      lookup = lookup;
      global_work_size = global_work_size;
      preferred_wg_size_mult = preferred_wg_size_mult;
      labels_buffer = replicate (u64 (global_work_size * 32)) 0;
    })
