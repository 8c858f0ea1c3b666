-- ===== src/Ocl/Buffers.antt =====
-- The buffers that `Scrypter::new` allocates.
use post_rs.Base.{List, ℕ, ◌/◌, ◌≡◌}
use post_rs.Base.{length, length-replicate}
use post_rs.Base.Outcome.{Holds, bind-Holds, Holds-done}
use post_rs.Ocl.Interface.{OpenCl, build_buffer, set_arg}
use post_rs.Ocl.Providers.{lift_ocl}
use post_rs.Ocl.Scrypter.{allocate, build_buffers}

-- Buffers of the sizes that are asked for.
abbrev pub AreBuilt : {Q : Type 0} → ℕ → ℕ → Q × List ℕ × List ℕ × List ℕ → Type 0
AreBuilt output_size lookup_size (queue, input, output, lookup) =
    (length input ≡ 8) × (length output ≡ output_size) × (length lookup ≡ lookup_size / 4)

allocate-length :
    (ocl : OpenCl) (E : Type 0) (len : ℕ) (queue : ocl.Queue)
    → Holds (λ r. length r.1 ≡ len) (allocate ocl {E = E} len queue)
allocate-length ocl E len queue =
    bind-Holds (λ r. length r.1 ≡ len) (lift_ocl ocl {E = E} (ocl.call (build_buffer len) queue)) _
      (λ q e. length-replicate {A = ℕ} len 0)

pub build_buffers-AreBuilt :
    (ocl : OpenCl) (E : Type 0) (output_size lookup_size : ℕ) (queue : ocl.Queue)
    → Holds
        (AreBuilt output_size lookup_size)
        (build_buffers ocl {E = E} output_size lookup_size queue)
build_buffers-AreBuilt ocl E output_size lookup_size queue =
    let P = AreBuilt {Q = ocl.Queue} output_size lookup_size in
    bind-Holds P (allocate ocl {E = E} 8 queue) _ (λ input e1.
      bind-Holds P (allocate ocl {E = E} output_size input.0) _ (λ output e2.
        bind-Holds P (allocate ocl {E = E} (lookup_size / 4) output.0) _ (λ lookup e3.
          bind-Holds P (lift_ocl ocl {E = E} (ocl.call (set_arg 2) lookup.0)) _ (λ q4 e4.
            bind-Holds P (lift_ocl ocl {E = E} (ocl.call (set_arg 3) q4)) _ (λ q5 e5.
              bind-Holds P (lift_ocl ocl {E = E} (ocl.call (set_arg 4) q5)) _ (λ q6 e6. (
                Holds-done _ (allocate-length ocl E 8 queue) e1,
                Holds-done _ (allocate-length ocl E output_size input.0) e2,
                Holds-done _ (allocate-length ocl E (lookup_size / 4) output.0) e3,
              )))))))
