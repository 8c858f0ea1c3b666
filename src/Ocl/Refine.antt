-- ===== src/Ocl/Refine.antt =====
-- scrypt-ocl/src/lib.rs: an initialization on a device, next to one on the CPU.
use post_rs.Base.{ℕ, ◌+◌, ◌*◌, ◌/◌, ◌^◌, ◌≤◌, ◌<◌, ◌≡◌, arith, Option, some, List}
use post_rs.Base.Bytes.{IsBytes}
use post_rs.Base.Words.{ok}
use post_rs.Base.Outcome.{done}
use post_rs.Prove.Nonces.{Range}
use post_rs.Config.{ScryptFactors, to_scrypt_factors}
use post_rs.Crates.{Scrypt}
use post_rs.Initialize.{Writer, initialize_to}
use post_rs.Ocl.Interface.{OpenCl, KernelLaws, IsReliable}
use post_rs.Ocl.Scrypter.{Scrypter}
use post_rs.Ocl.Scrypt.{scrypt, commitment_words}
use native.Mathlib.Nat.{mod-eq-sub-div-mul, div-mul-le_self}
use post_rs.Ocl.Writers.{WriterLaws, forget, as_scrypt_error}
use post_rs.Ocl.Rounds.{scrypt-initialize_to}
use post_rs.Ocl.Bounds.{new_scrypter-IsFitting}
use post_rs.Ocl.Scrypter.{new_scrypter}
use post_rs.Ocl.Interface.{
  info_global_mem_size, global_mem_size, info_max_mem_alloc_size, max_mem_alloc_size,
}

-- On a device whose calls do not fail and whose kernel makes the labels, a scrypter that
-- `Scrypter::new` made with room for some work does what the CPU initializer does, for any range that
-- ends at least the size of the work below 2 ^ 64: it writes the same bytes, returns the same nonce,
-- and fails with the same error of the writer, which takes bytes one after another.
pub new_scrypter-initialize_to :
    (ocl : OpenCl) {E : Type 0} (scrypt_crate : Scrypt) (platform : ocl.Platform)
    (device : ocl.Device) (n memory max_alloc : ℕ) (factors : ScryptFactors) (s : Scrypter ocl)
    (writer : Writer E) (w : writer.W) (labels : Range) (commitment : List ℕ)
    (vrf_difficulty : Option (List ℕ))
    → IsBytes 32 commitment
    → KernelLaws ocl scrypt_crate commitment_words
    → IsReliable ocl
    → WriterLaws writer
    → to_scrypt_factors (record { n = n; r = 1; p = 1 }) ≡ some factors
    → n < 2 ^ 32
    → 32 ≤ memory
    → memory < 2 ^ 64
    → max_alloc < 2 ^ 64
    → ocl.device_info device info_global_mem_size ≡ ok (global_mem_size memory)
    → ocl.device_info device info_max_mem_alloc_size ≡ ok (max_mem_alloc_size max_alloc)
    → new_scrypter ocl {E = E} platform device n ≡ done s
    → 0 < s.global_work_size
    → labels.end + s.global_work_size ≤ 2 ^ 64
    → forget (scrypt ocl writer s w labels commitment vrf_difficulty)
      ≡ as_scrypt_error (
          initialize_to writer scrypt_crate
            (record { n = n; r = 1; p = 1 })
            w
            commitment
            labels
            vrf_difficulty)
new_scrypter-initialize_to ocl {E} scrypt_crate platform device n memory max_alloc factors s writer
      w labels commitment vrf_difficulty bytes32 laws reliable wlaws convert hn h32 hm ha has_memory
      has_alloc made some_work fits =
    let (sized, _, pos, whole, small, _, _, _, _, _) =
      new_scrypter-IsFitting ocl E platform device n memory max_alloc s hn h32 hm ha has_memory
        has_alloc made in
    let size = s.global_work_size in
    let group = s.preferred_wg_size_mult in
    let groups : size ≡ size / group * group =
      omega (arith, mod-eq-sub-div-mul size group, div-mul-le_self size group) in
    scrypt-initialize_to ocl scrypt_crate laws reliable factors commitment n size group
      (size / group) bytes32 convert pos groups small some_work writer s w labels vrf_difficulty
      wlaws sized fits
