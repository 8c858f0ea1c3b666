-- ===== src/Config.antt =====
-- src/config.rs: the network parameters, and the check of the scrypt parameters.
pub mod Laws
use post_rs.Base.{
  ℕ, ◌+◌, ◌-◌, ◌^◌, ◌≡◌, Bool, true, Option, none, some, List, leb, ◌&&◌, if◌then◌else◌,
}
use post_rs.Base.Words.{u8, ilog2, is_power_of_two}

pub record ScryptParams : Type 0 where
  pub n : ℕ
  pub r : ℕ
  pub p : ℕ

pub record InitConfig : Type 0 where
  pub min_num_units : ℕ
  pub max_num_units : ℕ
  pub labels_per_unit : ℕ
  pub scrypt : ScryptParams

pub record ProofConfig : Type 0 where
  pub k1 : ℕ
  pub k2 : ℕ
  pub k3 : ℕ
  pub pow_difficulty : List ℕ

-- `ScryptParams::new`; `none` is a failed assertion.
unfoldable pub new_scrypt_params : ℕ → ℕ → ℕ → Option ScryptParams
new_scrypt_params n r p =
    if leb 2 n && is_power_of_two n && is_power_of_two r && is_power_of_two p
    then some (record { n = n; r = r; p = p })
    else none

-- The exponents that `scrypt_jane::scrypt::ScryptParams::new` is given.
pub record ScryptFactors : Type 0 where
  pub n_factor : ℕ
  pub r_factor : ℕ
  pub p_factor : ℕ

-- `n.ilog2() as u8 - 1`, which wraps; `none` is the panic of `ilog2` at 0.
unfoldable pub n_factor_of : ℕ → Option ℕ
n_factor_of n = elim (ilog2 n) [ none ↦ none | some k ↦ some (u8 (u8 k + 2 ^ 8 - 1)) ]

unfoldable pub factor_of : ℕ → Option ℕ
factor_of n = elim (ilog2 n) [ none ↦ none | some k ↦ some (u8 k) ]

-- `From<ScryptParams> for scrypt_jane::scrypt::ScryptParams`
unfoldable pub to_scrypt_factors : ScryptParams → Option ScryptFactors
to_scrypt_factors params = elim (n_factor_of params.n) [
  | none ↦ none
  | some a ↦ elim (factor_of params.r) [
    | none ↦ none
    | some b ↦ elim (factor_of params.p) [
      | none ↦ none
      | some c ↦ some (record { n_factor = a; r_factor = b; p_factor = c })
    ]
  ]
]
