-- ===== src/Ffi/Initialization.antt =====
-- ffi/src/initialization.rs: the providers, and the initializer for C.
use post_rs.Base.{ℕ, ◌+◌, ◌-◌, ◌*◌, ◌^◌, ◌≡◌, Bool, Option, none, some, List, [], ◌∷◌, ◌++◌}
use post_rs.Base.{length, take, drop, replicate, ◌==◌, if◌then◌else◌}
use post_rs.Base.Words.{u32, u64, sub64, is_power_of_two}
use post_rs.Base.Outcome.{Outcome, done, failed, panicked, ◌>>=◌, expect}
use post_rs.Config.{ScryptParams, new_scrypt_params}
use post_rs.Crates.{Scrypt}
use post_rs.Prove.Nonces.{Range}
use post_rs.Initialize.{VrfNonce, Slice, slice_writer, SliceError, initialize_to}
use post_rs.Ocl.Interface.{OpenCl}
use post_rs.Ocl.Filtering.{RegexCrate, Environment}
use post_rs.Ocl.Providers.{ScryptError, Provider, get_providers, get_providers_count}
use post_rs.Ocl.Initializer.{OpenClInitializer, new_opencl_initializer}
use post_rs.PosVerification.{VerificationError, invalid_label}
use post_rs.Ffi.{VerifyResult, verify_ok, verify_invalid, verify_failed}

pub data InitializeResult : Type 0 where
  initialize_ok : InitializeResult
  initialize_ok_nonce_not_found : InitializeResult
  initialize_invalid_labels_range : InitializeResult
  initialize_error : InitializeResult
  initialize_invalid_argument : InitializeResult
  initialize_failed_to_get_providers : InitializeResult

pub data DeviceClass : Type 0 where
  cpu : DeviceClass
  gpu : DeviceClass

-- The name is an array of 64 bytes.
pub record CProvider : Type 0 where
  pub name : List ℕ
  pub id : ℕ
  pub class : DeviceClass

abbrev pub cpu_provider_id : ℕ
cpu_provider_id = 2 ^ 32 - 1

-- `[CPU] scrypt-jane` with its null.
abbrev pub cpu_name : List ℕ
cpu_name =
    91 ∷ 67 ∷ 80 ∷ 85 ∷ 93 ∷ 32 ∷ 115 ∷ 99 ∷ 114 ∷ 121 ∷ 112 ∷ 116 ∷ 45 ∷ 106 ∷ 97 ∷ 110 ∷ 101 ∷ 0
    ∷ []

-- `array[..bytes.len()].copy_from_slice(bytes)`
abbrev pub copy_to_front : List ℕ → List ℕ → List ℕ
copy_to_front array bytes = bytes ++ drop (length bytes) array

abbrev pub cpu_entry : CProvider
cpu_entry = record {
  name = copy_to_front (replicate 64 0) cpu_name;
  id = cpu_provider_id;
  class = cpu;
}

module _ (ocl : OpenCl) (display : Provider ocl → List ℕ) where
  -- The entry for a provider: its text up to 63 bytes and a null, over what was there.
  abbrev pub gpu_entry : ℕ → Provider ocl → CProvider → CProvider
  gpu_entry id provider out = record {
    name = copy_to_front out.name (take (length out.name - 1) (display provider) ++ (0 ∷ []));
    id = u32 id;
    class = gpu;
  }

  -- The loop over entries and providers, and then the entry of the CPU, if there is room.
  unfoldable pub fill_providers : ℕ → List CProvider → List (Provider ocl) → List CProvider
  fill_providers id [] providers = []
  fill_providers id (out ∷ outs) [] = cpu_entry ∷ outs
  fill_providers id (out ∷ outs) (provider ∷ providers) =
      gpu_entry id provider out ∷ fill_providers (id + 1) outs providers

  -- `get_providers`, with what `out` points to afterwards.
  unfoldable pub get_providers_c :
      RegexCrate
      → Environment
      → ocl.DeviceType
      → Option (List CProvider)
      → Option (InitializeResult × Option (List CProvider))
  get_providers_c regex env gpu_type none = some (initialize_invalid_argument, none)
  get_providers_c regex env gpu_type (some outs) =
      elim (get_providers ocl {E = Unit {0}} regex env (some gpu_type)) [
        | done providers ↦ some (initialize_ok, some (fill_providers 0 outs providers))
        | failed e ↦ some (initialize_failed_to_get_providers, some outs)
        | panicked ↦ none
      ]

-- `get_providers_count`
pub get_providers_count_c : (ocl : OpenCl) → RegexCrate → Environment → ocl.DeviceType → Option ℕ
get_providers_count_c ocl regex env gpu_type =
    elim (get_providers_count ocl regex env (some gpu_type)) [
      | none ↦ none
      | some count ↦ some (count + 1)
    ]

-- A `Box<dyn Initialize>`: its state, and `initialize_to` on the buffer of the caller.
pub record Inner : Type 1 where
  pub S : Type 0
  pub E : Type 0
  pub initialize_to :
      S → Slice → List ℕ → Range → Option (List ℕ) → Outcome E (S × Slice × Option VrfNonce)

-- The CPU initializer as one.
abbrev pub cpu_inner : Scrypt → ScryptParams → Inner
cpu_inner scrypt params = record {
  S = Unit {0};
  E = SliceError;
  initialize_to = λ state buffer commitment labels vrf_difficulty.
      initialize_to slice_writer scrypt params buffer commitment labels vrf_difficulty
      >>= λ (buffer, vrf_nonce). done (state, buffer, vrf_nonce);
}

pub record InitializerWrapper (inner : Inner) : Type 0 where
  pub state : inner.S
  pub commitment : List ℕ
  pub vrf_difficulty : Option (List ℕ)

-- What a call of `initialize` leaves: the code, the buffer where labels were written, and the nonce
-- where it was stored.
pub record Initialized : Type 0 where
  pub code : InitializeResult
  pub buffer : Option Slice
  pub out_nonce : Option ℕ

-- The code and the nonce, for an `out_nonce` that is null or not.
unfoldable pub report_nonce : Bool → Slice → Option VrfNonce → Initialized
report_nonce wants_nonce buffer vrf_nonce =
    if wants_nonce
    then elim vrf_nonce [
      | some n ↦ record { code = initialize_ok; buffer = some buffer; out_nonce = some n.index }
      | none ↦ record {
        code = initialize_ok_nonce_not_found;
        buffer = some buffer;
        out_nonce = none;
      }
    ]
    else record { code = initialize_ok; buffer = some buffer; out_nonce = none }

-- `initialize`, with `end` inclusive.
unfoldable pub initialize_c :
    (inner : Inner) → InitializerWrapper inner → ℕ → ℕ → Bool → Option Initialized
initialize_c inner initializer start last wants_nonce =
    if last == 2 ^ 64 - 1
    then some (record { code = initialize_invalid_labels_range; buffer = none; out_nonce = none })
    else let range : Range = record { start = start; end = last + 1 } in
      let len = u64 (sub64 (last + 1) start * 16) in
      elim (inner.initialize_to initializer.state (record { written = []; room = len })
        initializer.commitment range initializer.vrf_difficulty) [
          | done (state, buffer, vrf_nonce) ↦ some (report_nonce wants_nonce buffer vrf_nonce)
          | failed e ↦ some (record { code = initialize_error; buffer = none; out_nonce = none })
          | panicked ↦ none
        ]

-- What `new_initializer` makes: an initializer on the CPU or through OpenCL.
pub data Instance (ocl : OpenCl) : Type 0 where
  cpu_instance : ScryptParams → Instance ocl
  opencl_instance : OpenClInitializer ocl → Instance ocl

pub data NewError (ocl : OpenCl) : Type 0 where
  not_power_of_two : NewError ocl
  scrypt_error : ScryptError ocl SliceError → NewError ocl

abbrev pub lift_scrypt :
    {ocl : OpenCl} {A : Type 0} → Outcome (ScryptError ocl SliceError) A → Outcome (NewError ocl) A
lift_scrypt (done a) = done a
lift_scrypt (failed e) = failed (scrypt_error e)
lift_scrypt panicked = panicked

-- `_new_initializer`
unfoldable pub new_initializer_instance :
    (ocl : OpenCl)
    → RegexCrate
    → Environment
    → ocl.DeviceType
    → ℕ
    → ℕ
    → Outcome (NewError ocl) (Instance ocl)
new_initializer_instance ocl regex env gpu_type provider_id n =
    if is_power_of_two n
    then if provider_id == cpu_provider_id
      then (do params ← expect (new_scrypt_params n 1 1); done (cpu_instance params))
      else (do
        initializer ←
            lift_scrypt (new_opencl_initializer ocl regex env (some provider_id) n (some gpu_type))
        done (opencl_instance initializer))
    else failed not_power_of_two

-- `new_initializer`: a null pointer is `some none`.
pub new_initializer :
    (ocl : OpenCl)
    → RegexCrate
    → Environment
    → ocl.DeviceType
    → ℕ
    → ℕ
    → List ℕ
    → Option (List ℕ)
    → Option (Option (Instance ocl × List ℕ × Option (List ℕ)))
new_initializer ocl regex env gpu_type provider_id n commitment vrf_difficulty =
    elim (new_initializer_instance ocl regex env gpu_type provider_id n) [
      | done made ↦ some (some (made, commitment, vrf_difficulty))
      | failed e ↦ some none
      | panicked ↦ none
    ]

-- The code of `verify_pos` for a result of `verify_files`.
pub verify_pos_code : Outcome VerificationError (Unit {0}) → Option VerifyResult
verify_pos_code (done _) = some verify_ok
verify_pos_code (failed (invalid_label idx offset)) = some verify_invalid
verify_pos_code (failed e) = some verify_failed
verify_pos_code panicked = none

-- `verify_pos`: the directory is valid UTF-8 or not, and `verifies` is what `verify_files` may return
-- for it.
pub VerifyPos :
    Option (List ℕ)
    → (List ℕ → Outcome VerificationError (Unit {0}) → Type 0)
    → Option VerifyResult
    → Type 0
VerifyPos none verifies code = code ≡ some verify_failed
VerifyPos (some datadir) verifies code =
    (r : Outcome VerificationError (Unit {0})) × verifies datadir r × (code ≡ verify_pos_code r)
