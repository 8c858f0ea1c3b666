-- ===== src/Ocl/Providers.antt =====
-- scrypt-ocl/src/lib.rs: the errors, and the list of the providers, which are the devices that no
-- blacklist names.
use post_rs.Base.{ℕ, Bool, false, Option, none, some, List, [], ◌∷◌, ◌++◌}
use post_rs.Base.{length, if◌then◌else◌}
use post_rs.Base.Words.{Result, ok, err}
use post_rs.Base.Outcome.{Outcome, done, failed, panicked, ◌>>=◌}
use post_rs.Ocl.Interface.{OpenCl, info_type, DeviceInfoResult, device_type}
use post_rs.Ocl.Filtering.{RegexCrate, Environment, create_platform_filter, create_device_filter}

abbrev pub ProviderId : Type 0
ProviderId = ℕ

-- `E` is the error of the writer.
pub data ScryptError (ocl : OpenCl) (E : Type 0) : Type 0 where
  labels_range_too_big : ScryptError ocl E
  invalid_buffer_size : ℕ → ℕ → ScryptError ocl E
  ocl_error : ocl.Error → ScryptError ocl E
  ocl_core_error : ocl.CoreError → ScryptError ocl E
  invalid_provider_id : ProviderId → ScryptError ocl E
  no_providers_available : ScryptError ocl E
  write_error : E → ScryptError ocl E

pub record Provider (ocl : OpenCl) : Type 0 where
  pub platform : ocl.Platform
  pub device : ocl.Device
  pub class : ocl.DeviceType

module _ (ocl : OpenCl) {E : Type 0} where
  -- `?` on a result of the crate.
  abbrev pub lift_ocl {ℓ} : {A : Type ℓ} → Result ocl.Error A → Outcome (ScryptError ocl E) A
  lift_ocl (ok a) = done a
  lift_ocl (err e) = failed (ocl_error e)

  abbrev pub lift_core {ℓ} : {A : Type ℓ} → Result ocl.CoreError A → Outcome (ScryptError ocl E) A
  lift_core (ok a) = done a
  lift_core (err e) = failed (ocl_core_error e)

  abbrev pub cast_type :
      DeviceInfoResult ocl.DeviceType → Outcome (ScryptError ocl E) ocl.DeviceType
  cast_type (device_type t) = done t
  cast_type r = panicked

-- `d.name().map(|n| filter(&n)).unwrap_or(false)`
abbrev pub passes : {E : Type 0} → (List ℕ → Bool) → Result E (List ℕ) → Bool
passes accepts (ok name) = accepts name
passes accepts (err e) = false

module _ (ocl : OpenCl) {E : Type 0} where
  unfoldable pub push_devices :
      (List ℕ → Bool)
      → ocl.Platform
      → List ocl.Device
      → List (Provider ocl)
      → Outcome (ScryptError ocl E) (List (Provider ocl))
  push_devices device_filter platform [] providers = done providers
  push_devices device_filter platform (device ∷ devices) providers =
      if passes device_filter (ocl.device_name device)
      then (do
        info ← lift_ocl ocl (ocl.device_info device info_type)
        class ← cast_type ocl info
        push_devices device_filter platform devices
            (providers ++ (record { platform = platform; device = device; class = class } ∷ [])))
      else push_devices device_filter platform devices providers

  unfoldable pub push_platforms :
      (List ℕ → Bool)
      → (List ℕ → Bool)
      → Option ocl.DeviceType
      → List ocl.Platform
      → List (Provider ocl)
      → Outcome (ScryptError ocl E) (List (Provider ocl))
  push_platforms platform_filter device_filter device_types [] providers = done providers
  push_platforms platform_filter device_filter device_types (platform ∷ platforms) providers =
      if passes platform_filter (ocl.platform_name platform)
      then (do
        devices ← lift_ocl ocl (ocl.list_devices platform device_types)
        providers ← push_devices device_filter platform devices providers
        push_platforms platform_filter device_filter device_types platforms providers)
      else push_platforms platform_filter device_filter device_types platforms providers

  unfoldable pub get_providers :
      RegexCrate
      → Environment
      → Option ocl.DeviceType
      → Outcome (ScryptError ocl E) (List (Provider ocl))
  get_providers regex env device_types = do
    platforms ← lift_core ocl ocl.get_platform_ids
    push_platforms (create_platform_filter regex env) (create_device_filter regex env) device_types
        platforms []

-- `none` is a panic.
pub get_providers_count :
    (ocl : OpenCl) → RegexCrate → Environment → Option ocl.DeviceType → Option ℕ
get_providers_count ocl regex env device_types =
    elim (get_providers ocl {E = Unit} regex env device_types) [
      | done providers ↦ some (length providers)
      | failed e ↦ some 0
      | panicked ↦ none
    ]
