-- ===== src/Ocl/Initializer.antt =====
-- scrypt-ocl/src/lib.rs: `OpenClInitializer`.
use post_rs.Base.{ℕ, Option, none, some, List, get_elem?}
use post_rs.Base.Outcome.{Outcome, done, failed, ◌>>=◌}
use post_rs.Prove.Nonces.{Range}
use post_rs.Initialize.{VrfNonce, Writer}
use post_rs.Ocl.Interface.{OpenCl}
use post_rs.Ocl.Filtering.{RegexCrate, Environment}
use post_rs.Ocl.Providers.{
  ScryptError, invalid_provider_id, no_providers_available, ProviderId, Provider, get_providers,
}
use post_rs.Ocl.Scrypter.{Scrypter, new_scrypter}
use post_rs.Ocl.Scrypt.{scrypt}

pub record OpenClInitializer (ocl : OpenCl) : Type 0 where
  pub scrypter : Scrypter ocl

module _ (ocl : OpenCl) {E : Type 0} where
  unfoldable pub select_provider :
      Option ProviderId → List (Provider ocl) → Outcome (ScryptError ocl E) (Provider ocl)
  select_provider (some id) providers = elim (get_elem? providers id) [
    | some provider ↦ done provider
    | none ↦ failed (invalid_provider_id id)
  ]
  select_provider none providers = elim (get_elem? providers 0) [
    | some provider ↦ done provider
    | none ↦ failed no_providers_available
  ]

  -- `OpenClInitializer::new`
  pub new_opencl_initializer :
      RegexCrate
      → Environment
      → Option ProviderId
      → ℕ
      → Option ocl.DeviceType
      → Outcome (ScryptError ocl E) (OpenClInitializer ocl)
  new_opencl_initializer regex env provider_id n device_types = do
    providers ← get_providers ocl regex env device_types
    provider ← select_provider provider_id providers
    scrypter ← new_scrypter ocl provider.platform provider.device n
    done (record { scrypter = scrypter })

  -- `OpenClInitializer::initialize_to`
  pub initialize_to_opencl :
      (writer : Writer E)
      → OpenClInitializer ocl
      → writer.W
      → List ℕ
      → Range
      → Option (List ℕ)
      → Outcome (ScryptError ocl E) (OpenClInitializer ocl × writer.W × Option VrfNonce)
  initialize_to_opencl writer initializer w commitment labels vrf_difficulty = do
    (scrypter, w, vrf_nonce) ←
        scrypt ocl writer initializer.scrypter w labels commitment vrf_difficulty
    done (record { scrypter = scrypter }, w, vrf_nonce)
