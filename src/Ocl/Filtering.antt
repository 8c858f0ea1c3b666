-- ===== src/Ocl/Filtering.antt =====
-- scrypt-ocl/src/filtering.rs: the blacklists of platforms and devices. The crate `regex` is an
-- interface, and the environment a function of the names of its variables.
use post_rs.Base.{ℕ, Bool, true, not, Option, none, some, List}
use post_rs.Base.Words.{Result, ok, err}

pub record RegexCrate : Type 1 where
  pub Regex : Type 0
  pub Error : Type 0
  pub new : List ℕ → Result Error Regex
  pub is_match : Regex → List ℕ → Bool

pub data EnvVar : Type 0 where
  post_ocl_platforms_blacklist : EnvVar
  post_ocl_devices_blacklist : EnvVar

abbrev pub Environment : Type 0
Environment = EnvVar → Option (List ℕ)

module _ (regex : RegexCrate) where
  unfoldable pub create_blacklist_filter : Option (List ℕ) → List ℕ → Bool
  create_blacklist_filter none name = true
  create_blacklist_filter (some blacklist_re) name = elim (regex.new blacklist_re) [
    | ok re ↦ not (regex.is_match re name)
    | err e ↦ true
  ]

  unfoldable pub create_platform_filter : Environment → List ℕ → Bool
  create_platform_filter env = create_blacklist_filter (env post_ocl_platforms_blacklist)

  unfoldable pub create_device_filter : Environment → List ℕ → Bool
  create_device_filter env = create_blacklist_filter (env post_ocl_devices_blacklist)
