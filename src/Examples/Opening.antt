-- ===== src/Examples/Opening.antt =====
-- A GPU with room for three labels, in groups of one, which makes five labels as the CPU does.
use post_rs.Base.{
  ℕ, ◌+◌, ◌*◌, ◌≡◌, refl, sym, ap, ◌∙◌, zero, suc, arith, List, [], ◌∷◌, ◌++◌, Option, some, none,
  map,
}
use post_rs.Base.{take, drop, replicate, range_from, concat, take-append_exact, drop-append_exact}
use post_rs.Base.Bytes.{IsBytes, to_le_bytes, from_le_bytes, length-to_le_bytes, eq_bytes}
use post_rs.Base.Words.{ok}
use post_rs.Base.Outcome.{done}
use post_rs.Crates.{Scrypt}
use post_rs.Config.{ScryptFactors}
use post_rs.Prove.Nonces.{Range}
use post_rs.Initialize.{Slice, SliceError, slice_writer, label_of, initialize_to}
use mathlib.Core.Path.{ap₂}
use post_rs.Ocl.Interface.{
  OpenCl, KernelLaws, IsReliable, info_type, info_global_mem_size, info_max_mem_alloc_size,
  info_max_compute_units, device_type, global_mem_size, max_mem_alloc_size, max_compute_units,
  info_preferred_work_group_size_multiple, info_work_group_size, preferred_work_group_size_multiple,
  work_group_size,
}
use post_rs.Ocl.Filtering.{
  RegexCrate, Environment, post_ocl_platforms_blacklist, post_ocl_devices_blacklist,
  create_blacklist_filter, create_platform_filter, create_device_filter,
}
use post_rs.Ocl.Providers.{Provider, push_devices, push_platforms, get_providers}
use post_rs.Ocl.Initializer.{select_provider}
use post_rs.Ocl.Select.{IsChosen, select_provider-IsChosen}
use post_rs.Ocl.Scrypter.{Scrypter, new_scrypter, work_size}
use post_rs.Ocl.Scrypt.{scrypt, commitment_words}
use post_rs.Ocl.Writers.{slice_laws, forget, as_scrypt_error}
use post_rs.Ocl.Bounds.{IsFitting, new_scrypter-IsFitting}
use post_rs.Ocl.Refine.{new_scrypter-initialize_to}
use post_rs.Examples.Crates.{replicate-IsBytes}
use post_rs.Examples.Initializing.{factors, factors_run}

abbrev pub label_bytes : ℕ → List ℕ
label_bytes index = to_le_bytes 32 (from_le_bytes (to_le_bytes 8 index))

-- A hash that gives back the eight bytes after the commitment.
abbrev pub index_scrypt : Scrypt
index_scrypt = record {
  scrypt = λ input salt factors size. to_le_bytes 32 (from_le_bytes (take 8 (drop 32 input)));
}

abbrev pub gpu : OpenCl
gpu = record {
  Platform = Unit {0};
  Device = Unit {0};
  DeviceType = Unit {0};
  Error = Unit {0};
  CoreError = Unit {0};
  Queue = Unit {0};
  get_platform_ids = ok (tt ∷ []);
  platform_name = λ platform. ok (65 ∷ []);
  list_devices = λ platform device_types. ok (tt ∷ []);
  device_name = λ device. ok (66 ∷ []);
  device_info = λ device info. elim info [
    | info_type ↦ ok (device_type tt)
    | info_global_mem_size ↦ ok (global_mem_size 600)
    | info_max_mem_alloc_size ↦ ok (max_mem_alloc_size 400)
    | info_max_compute_units ↦ ok (max_compute_units 1)
  ];
  max_wg_size = λ device. ok 1;
  pro_que = λ platform device. ok tt;
  wg_info = λ queue device info. elim info [
    | info_preferred_work_group_size_multiple ↦ ok (preferred_work_group_size_multiple 1)
    | info_work_group_size ↦ ok (work_group_size 1)
  ];
  call = λ call queue. ok tt;
  run = λ kernel input output.
      concat (map label_bytes (range_from kernel.index kernel.global_work_size))
      ++ drop (kernel.global_work_size * 32) output;
}

label_of-bytes :
    (f : ScryptFactors) (commitment : List ℕ)
    → IsBytes 32 commitment
    → (start count : ℕ)
    → map label_bytes (range_from start count)
      ≡ map (label_of index_scrypt f commitment) (range_from start count)
unfolding label_of
label_of-bytes f commitment h start zero = refl
label_of-bytes f commitment h start (suc count) =
    let rest = drop-append_exact commitment (to_le_bytes 8 start ++ replicate 32 0) 32 h.0 in
    let index =
      take-append_exact (to_le_bytes 8 start) (replicate 32 0) 8 (length-to_le_bytes 8 start) in
    ap₂ ◌∷◌ (ap (λ t. to_le_bytes 32 (from_le_bytes t)) (sym (ap (take 8) rest ∙ index)))
      (label_of-bytes f commitment h (start + 1) count)

pub gpu_laws : KernelLaws gpu index_scrypt commitment_words
unfolding label_of
gpu_laws = record {
  length-label = λ f commitment i.
      length-to_le_bytes 32
        (from_le_bytes (take 8 (drop 32 (commitment ++ (to_le_bytes 8 i ++ replicate 32 0)))));
  run-labels = λ kernel f commitment output h e m r.
      ap (λ t. concat t ++ drop (kernel.global_work_size * 32) output)
        (label_of-bytes f commitment h kernel.index kernel.global_work_size);
}

gpu_reliable : IsReliable gpu
gpu_reliable call queue = (tt, refl)

abbrev gpu_scrypter : Scrypter gpu
gpu_scrypter = record {
  queue = tt;
  kernel = record { n = 2; index = 0; global_work_size = 3; local_work_size = 1 };
  input = replicate 8 0;
  output = replicate 96 0;
  lookup = replicate 96 0;
  global_work_size = 3;
  preferred_wg_size_mult = 1;
  labels_buffer = replicate 96 0;
}

gpu_made : new_scrypter gpu {E = SliceError} tt tt 2 ≡ done gpu_scrypter
unfolding new_scrypter work_size
gpu_made = refl

new_scrypter-IsFitting_example : IsFitting gpu 2 600 400 gpu_scrypter
new_scrypter-IsFitting_example =
    new_scrypter-IsFitting gpu SliceError tt tt 2 600 400 gpu_scrypter (omega arith) (omega arith)
      (omega arith) (omega arith) refl refl gpu_made

abbrev five : Range
five = record { start = 1; end = 6 }

abbrev empty_slice : Slice
empty_slice = record { written = []; room = 80 }

abbrev zeros : List ℕ
zeros = replicate 32 0

new_scrypter-initialize_to_example :
    forget (scrypt gpu slice_writer gpu_scrypter empty_slice five zeros (some (replicate 32 255)))
    ≡ as_scrypt_error (
        initialize_to slice_writer index_scrypt
          (record { n = 2; r = 1; p = 1 })
          empty_slice
          zeros
          five
          (some (replicate 32 255)))
new_scrypter-initialize_to_example =
    new_scrypter-initialize_to gpu index_scrypt tt tt 2 600 400 factors gpu_scrypter slice_writer
      empty_slice five zeros (some (replicate 32 255)) (replicate-IsBytes 32 0 (omega arith))
      gpu_laws gpu_reliable slice_laws factors_run (omega arith) (omega arith) (omega arith)
      (omega arith) refl refl gpu_made (omega arith) (omega arith)

-- A regular expression that is one name.
abbrev pub one_name : RegexCrate
one_name = record {
  Regex = List ℕ;
  Error = Unit {0};
  new = λ text. ok text;
  is_match = λ re name. eq_bytes re name;
}

-- The name of the device as a blacklist for platforms, and another for devices.
abbrev pub environment : Environment
environment post_ocl_platforms_blacklist = some (66 ∷ [])
environment post_ocl_devices_blacklist = some (67 ∷ [])

abbrev pub gpu_provider : Provider gpu
gpu_provider = record { platform = tt; device = tt; class = tt }

pub gpu_listed :
    (device_types : Option (Unit {0}))
    → get_providers gpu {E = Unit {0}} one_name environment device_types ≡ done (gpu_provider ∷ [])
unfolding get_providers push_platforms push_devices create_platform_filter create_device_filter
    create_blacklist_filter
gpu_listed device_types = refl

gpu_selected : select_provider gpu {E = Unit {0}} (some 0) (gpu_provider ∷ []) ≡ done gpu_provider
unfolding select_provider
gpu_selected = refl

select_provider-IsChosen_example :
    IsChosen gpu one_name environment (some 0) (gpu_provider ∷ []) gpu_provider
select_provider-IsChosen_example =
    select_provider-IsChosen gpu (Unit {0}) one_name environment none (some 0) (gpu_provider ∷ [])
      gpu_provider (gpu_listed none) gpu_selected
