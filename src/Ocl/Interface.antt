-- ===== src/Ocl/Interface.antt =====
-- The crate `ocl` and the OpenCL kernel scrypt-jane.cl, as an interface. Each call of the driver may
-- fail, which depends on the state of the command queue; what a buffer holds is written out where
-- the code reads or writes it.
use post_rs.Base.{ℕ, ◌*◌, ◌%◌, ◌≤◌, ◌≡◌, List, ◌++◌, map}
use post_rs.Base.{length, drop, range_from, concat}
use post_rs.Base.Bytes.{IsBytes}
use post_rs.Base.Words.{Result, ok}
use post_rs.Config.{ScryptFactors, to_scrypt_factors}
use post_rs.Crates.{Scrypt}
use post_rs.Initialize.{label_of}
use mathlib.Core.Option.{Option, some}

-- `DeviceInfo` and `DeviceInfoResult`, as far as the code asks for them.
pub data DeviceInfo : Type 0 where
  info_type : DeviceInfo
  info_global_mem_size : DeviceInfo
  info_max_mem_alloc_size : DeviceInfo
  info_max_compute_units : DeviceInfo

pub data DeviceInfoResult (DeviceType : Type 0) : Type 0 where
  device_type : DeviceType → DeviceInfoResult DeviceType
  global_mem_size : ℕ → DeviceInfoResult DeviceType
  max_mem_alloc_size : ℕ → DeviceInfoResult DeviceType
  max_compute_units : ℕ → DeviceInfoResult DeviceType
  other_device_info : DeviceInfoResult DeviceType

pub data KernelInfo : Type 0 where
  info_preferred_work_group_size_multiple : KernelInfo
  info_work_group_size : KernelInfo

pub data KernelInfoResult : Type 0 where
  preferred_work_group_size_multiple : ℕ → KernelInfoResult
  work_group_size : ℕ → KernelInfoResult
  other_kernel_info : KernelInfoResult

-- The calls that change the state of the driver.
pub data Call : Type 0 where
  build_kernel : Call
  build_buffer : ℕ → Call
  set_arg : ℕ → Call
  write_buffer : Call
  enqueue : Call
  read_buffer : Call

-- The kernel with its arguments, and the default sizes of the work.
pub record Kernel : Type 0 where
  pub n : ℕ
  pub index : ℕ
  pub global_work_size : ℕ
  pub local_work_size : ℕ

pub record OpenCl : Type 1 where
  pub Platform : Type 0
  pub Device : Type 0
  pub DeviceType : Type 0
  pub Error : Type 0
  pub CoreError : Type 0
  pub Queue : Type 0
  pub get_platform_ids : Result CoreError (List Platform)
  pub platform_name : Platform → Result Error (List ℕ)
  pub list_devices : Platform → Option DeviceType → Result Error (List Device)
  pub device_name : Device → Result Error (List ℕ)
  pub device_info : Device → DeviceInfo → Result Error (DeviceInfoResult DeviceType)
  pub max_wg_size : Device → Result Error ℕ
  pub pro_que : Platform → Device → Result Error Queue
  pub wg_info : Queue → Device → KernelInfo → Result Error KernelInfoResult
  pub call : Call → Queue → Result Error Queue
  -- The kernel: what the output holds after a run, from the input and what it held.
  pub run : Kernel → List ℕ → List ℕ → List ℕ

-- No call fails.
abbrev pub IsReliable : OpenCl → Type 0
IsReliable ocl = (c : Call) (q : ocl.Queue) → (q' : ocl.Queue) × (ocl.call c q ≡ ok q')

-- The kernel writes one label of 32 bytes for each item of work, from its index on; the words of
-- the commitment of 32 bytes are its input, and the size of the work must be a multiple of the group's.
pub record KernelLaws (ocl : OpenCl) (scrypt : Scrypt) (words : List ℕ → List ℕ) : Type 0 where
  pub length-label :
      (factors : ScryptFactors) (commitment : List ℕ) (i : ℕ)
      → length (label_of scrypt factors commitment i) ≡ 32
  pub run-labels :
      (kernel : Kernel) (factors : ScryptFactors) (commitment output : List ℕ)
      → IsBytes 32 commitment
      → to_scrypt_factors (record { n = kernel.n; r = 1; p = 1 }) ≡ some factors
      → kernel.global_work_size % kernel.local_work_size ≡ 0
      → kernel.global_work_size * 32 ≤ length output
      → ocl.run kernel (words commitment) output
        ≡ concat (
            map
              (label_of scrypt factors commitment)
              (range_from kernel.index kernel.global_work_size))
          ++ drop (kernel.global_work_size * 32) output
