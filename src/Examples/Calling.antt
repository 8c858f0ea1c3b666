-- ===== src/Examples/Calling.antt =====
-- The functions for C on small inputs: three entries for one provider, five labels, and one proof.
use post_rs.Base.{ℕ, ◌+◌, ◌-◌, ◌≡◌, ◌↔◌, refl, arith, List, [], ◌∷◌, Option, some, true, map}
use post_rs.Base.{length, get_elem?, replicate, range_from}
use post_rs.Base.Bytes.{to_le_bytes-IsBytes}
use post_rs.Base.Outcome.{Outcome, done, panicked}
use post_rs.Initialize.{VrfNonce, label_of}
use post_rs.Initialize.Nonce.{IsNonce}
use post_rs.Verification.{Proof, accepted, verify}
use post_rs.Ocl.Providers.{Provider}
use post_rs.Ocl.Blocks.{halves}
use post_rs.Ffi.{verify_ok}
use post_rs.Ffi.Initialization.{
  cpu, CProvider, get_providers_c, initialize_ok, Initialized, cpu_inner, initialize_c,
  cpu_provider_id, new_initializer_instance,
}
use post_rs.Ffi.Post.{to_c_proof, generate_proof_inner, generate_proof_c, code, verify_proof_c}
use post_rs.Ffi.Names.{IsEntry, get_providers_c-IsEntry}
use post_rs.Ffi.Codes.{IsReported, initialize_c_lem, new_initializer_panics_iff}
use post_rs.Ffi.Proofs.{verify_proof_c-generate_proof_c}
use post_rs.Examples.Crates.{replicate-IsBytes}
use post_rs.Examples.Initializing.{params, factors, factors_run}
use post_rs.Examples.Opening.{index_scrypt, gpu, gpu_provider, gpu_listed, one_name, environment}
use post_rs.Examples.Verifying.{env, proof, metadata, cfg, init_cfg, all_pass}

abbrev display : Provider gpu → List ℕ
display provider = 71 ∷ 80 ∷ 85 ∷ []

abbrev blank : CProvider
blank = record { name = replicate 64 1; id = 7; class = cpu }

abbrev three : List CProvider
three = blank ∷ blank ∷ blank ∷ []

get_providers_c-IsEntry_example :
    (outs' : List CProvider) × (entry : CProvider) × (get_providers_c gpu display one_name
        environment tt
        (some three)
      ≡ some (initialize_ok, some outs'))
    × (length outs' ≡ 3)
    × (get_elem? outs' 1 ≡ some entry)
    × IsEntry gpu display 0 (gpu_provider ∷ []) 1 blank entry
get_providers_c-IsEntry_example =
    get_providers_c-IsEntry gpu display one_name environment tt three (gpu_provider ∷ []) 1 blank
      (gpu_listed (some tt)) refl refl

initialize_c_lem_example :
    (vrf_nonce : Option VrfNonce) × IsNonce 3
      (map (label_of index_scrypt factors (replicate 32 4)) (range_from 3 (7 + 1 - 3)))
      (replicate 32 255)
      vrf_nonce
    × ((r : Initialized) × (initialize_c
            (cpu_inner index_scrypt params)
            (record {
              state = tt;
              commitment = replicate 32 4;
              vrf_difficulty = some (replicate 32 255);
            })
            3
            7
            true
          ≡ some r)
        × IsReported true
            (halves
              (map (label_of index_scrypt factors (replicate 32 4)) (range_from 3 (7 + 1 - 3))))
            vrf_nonce
            r)
initialize_c_lem_example =
    initialize_c_lem index_scrypt params factors (replicate 32 4) (replicate 32 255) 3 7 true
      factors_run (λ input salt f. to_le_bytes-IsBytes 32 _)
      (replicate-IsBytes 32 255 (omega arith)) (omega arith) (omega arith) (omega arith)

new_initializer_panics_iff_example :
    (new_initializer_instance gpu one_name environment tt cpu_provider_id 1 ≡ panicked)
    ↔ (◌≡◌ {A = ℕ} 1 1)
new_initializer_panics_iff_example = new_initializer_panics_iff gpu one_name environment tt 1

generate_run :
    generate_proof_c {E = Unit {0}} (λ datadir challenge. done proof) 3 (some []) (replicate 32 0)
    ≡ some (some (to_c_proof 3 proof))
unfolding generate_proof_c generate_proof_inner
generate_run = refl

verify_proof_c-generate_proof_c_example :
    (generated : Proof) × (◌≡◌ {A = Outcome (Unit {0}) Proof} (done proof) (done generated))
    × ((verify_proof_c env (some all_pass) (to_c_proof 3 proof) (some metadata) cfg init_cfg
          ≡ code verify_ok)
        ↔ (verify env all_pass generated metadata cfg init_cfg ≡ accepted))
verify_proof_c-generate_proof_c_example =
    verify_proof_c-generate_proof_c env all_pass metadata cfg init_cfg
      (λ datadir challenge. done proof) 3 [] (replicate 32 0) (to_c_proof 3 proof) generate_run
