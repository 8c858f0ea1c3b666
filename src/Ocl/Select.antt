-- ===== src/Ocl/Select.antt =====
-- The provider that `OpenClInitializer::new` selects, and the blacklists.
use post_rs.Base.{
  ℕ, zero, suc, ◌≡◌, refl, ap, ◌∙◌, arith, Bool, true, false, Option, none, some, List, [], ◌∷◌,
  inl, inr,
}
use post_rs.Base.{get_elem?, All, All-append, Bool-cases, Option-cases}
use post_rs.Base.Words.{Result, ok, err, Result-cases}
use post_rs.Base.Outcome.{done, Holds, bind-Holds, Holds-done}
use post_rs.Ocl.Interface.{OpenCl, info_type}
use post_rs.Ocl.Filtering.{
  RegexCrate, Environment, post_ocl_platforms_blacklist, post_ocl_devices_blacklist,
  create_blacklist_filter, create_platform_filter, create_device_filter,
}
use post_rs.Ocl.Providers.{
  ProviderId, Provider, passes, lift_ocl, lift_core, cast_type, push_devices, push_platforms,
  get_providers,
}
use post_rs.Ocl.Initializer.{select_provider}
use mathlib.Core.Path.{subst}

-- A name was read, and the filter lets it through.
abbrev pub IsNamed : {E : Type 0} → (List ℕ → Bool) → Result E (List ℕ) → Type 0
IsNamed accepts r = (name : List ℕ) × (r ≡ ok name) × (accepts name ≡ true)

passes-IsNamed :
    {E : Type 0} (accepts : List ℕ → Bool) (r : Result E (List ℕ))
    → passes accepts r ≡ true
    → IsNamed accepts r
passes-IsNamed accepts (ok name) e = (name, refl, e)
passes-IsNamed accepts (err _) e = absurd (cc e)

abbrev pub IsAllowed : (ocl : OpenCl) → (List ℕ → Bool) → (List ℕ → Bool) → Provider ocl → Type 0
IsAllowed ocl platform_filter device_filter p =
    IsNamed platform_filter (ocl.platform_name p.platform)
    × IsNamed device_filter (ocl.device_name p.device)

module _ (ocl : OpenCl) (E : Type 0) (platform_filter device_filter : List ℕ → Bool) where
  P : List (Provider ocl) → Type 0
  P = All (IsAllowed ocl platform_filter device_filter)

  push_devices-Holds :
      (platform : ocl.Platform) (devices : List ocl.Device) (providers : List (Provider ocl))
      → IsNamed platform_filter (ocl.platform_name platform)
      → P providers
      → Holds P (push_devices ocl {E = E} device_filter platform devices providers)
  unfolding push_devices P
  push_devices-Holds platform [] providers named h = h
  push_devices-Holds platform (device ∷ devices) providers named h =
      elim (Bool-cases (passes device_filter (ocl.device_name device))) [
        | inl yes_passes ↦ rw yes_passes (
            bind-Holds P (lift_ocl ocl {E = E} (ocl.device_info device info_type)) _ (λ info e1.
              bind-Holds P (cast_type ocl {E = E} info) _ (λ class e2.
                push_devices-Holds platform devices _ named (
                  All-append (IsAllowed ocl platform_filter device_filter) providers _ h
                    ((named, passes-IsNamed device_filter _ yes_passes), tt)))))
        | inr fails ↦ rw fails (push_devices-Holds platform devices providers named h)
      ]

  push_platforms-Holds :
      (device_types : Option ocl.DeviceType) (platforms : List ocl.Platform)
      (providers : List (Provider ocl))
      → P providers
      → Holds P (
          push_platforms ocl {E = E} platform_filter device_filter device_types platforms providers)
  unfolding push_platforms
  push_platforms-Holds device_types [] providers h = h
  push_platforms-Holds device_types (platform ∷ platforms) providers h =
      elim (Bool-cases (passes platform_filter (ocl.platform_name platform))) [
        | inl yes_passes ↦ rw yes_passes (
            bind-Holds P (lift_ocl ocl {E = E} (ocl.list_devices platform device_types)) _
              (λ devices e1.
                bind-Holds P (push_devices ocl {E = E} device_filter platform devices providers) _
                  (λ more e2. push_platforms-Holds device_types platforms more (
                    Holds-done P
                      (push_devices-Holds platform devices providers
                        (passes-IsNamed platform_filter _ yes_passes) h)
                      e2))))
        | inr fails ↦ rw fails (push_platforms-Holds device_types platforms providers h)
      ]

get_elem?-All {ℓ κ} :
    {A : Type ℓ} (Q : A → Type κ) (xs : List A) (i : ℕ) {x : A}
    → All Q xs
    → get_elem? xs i ≡ some x
    → Q x
get_elem?-All Q [] i h e = cc
get_elem?-All Q (y ∷ xs) zero {x = x} h e = let same : y ≡ x = cc e in subst Q same h.0
get_elem?-All Q (y ∷ xs) (suc i) h e = get_elem?-All Q xs i h.1 e

get_providers-IsAllowed :
    (ocl : OpenCl) (E : Type 0) (regex : RegexCrate) (env : Environment)
    (device_types : Option ocl.DeviceType) (providers : List (Provider ocl))
    → get_providers ocl {E = E} regex env device_types ≡ done providers
    → All
        (IsAllowed ocl (create_platform_filter regex env) (create_device_filter regex env))
        providers
unfolding get_providers P
get_providers-IsAllowed ocl E regex env device_types providers e =
    let Q = P ocl E (create_platform_filter regex env) (create_device_filter regex env) in
    Holds-done Q
      (bind-Holds Q (lift_core ocl {E = E} ocl.get_platform_ids) _ (λ platforms e1.
        push_platforms-Holds ocl E (create_platform_filter regex env)
          (create_device_filter regex env) device_types platforms [] tt))
      e

select_provider-Holds :
    (ocl : OpenCl) (E : Type 0) (Q : Provider ocl → Type 0) (id : Option ProviderId)
    (providers : List (Provider ocl))
    → All Q providers
    → Holds Q (select_provider ocl {E = E} id providers)
unfolding select_provider
select_provider-Holds ocl E Q (some id) providers h = elim (Option-cases (get_elem? providers id)) [
  | inl missing ↦ rw (missing, select_provider, Holds) tt
  | inr (found, at) ↦ rw (at, select_provider, Holds) (get_elem?-All Q providers id h at)
]
select_provider-Holds ocl E Q none [] h = tt
select_provider-Holds ocl E Q none (provider ∷ providers) h = h.0

-- A name does not match the blacklist of a variable, if the variable is set and is a regular
-- expression.
abbrev pub IsUnlisted : RegexCrate → Option (List ℕ) → List ℕ → Type 0
IsUnlisted regex none name = Unit
IsUnlisted regex (some blacklist_re) name = elim (regex.new blacklist_re) [
  | ok re ↦ regex.is_match re name ≡ false
  | err e ↦ Unit
]

create_blacklist_filter-IsUnlisted :
    (regex : RegexCrate) (blacklist_re : Option (List ℕ)) (name : List ℕ)
    → create_blacklist_filter regex blacklist_re name ≡ true
    → IsUnlisted regex blacklist_re name
unfolding create_blacklist_filter
create_blacklist_filter-IsUnlisted regex none name e = tt
create_blacklist_filter-IsUnlisted regex (some blacklist_re) name e =
    elim (Result-cases (regex.new blacklist_re)) [
      | inl (re, compiles) ↦ rw (compiles, IsUnlisted) ground (arith, compiles, e)
      | inr (bad, fails) ↦ rw (fails, IsUnlisted) tt
    ]

-- The provider is at the place of the list that was asked for, or the first, and its platform and its
-- device have names that match neither the blacklist of platforms nor that of devices.
abbrev pub IsChosen :
    (ocl : OpenCl)
    → RegexCrate
    → Environment
    → Option ProviderId
    → List (Provider ocl)
    → Provider ocl
    → Type 0
IsChosen ocl regex env id providers p =
    (get_elem? providers (elim id [ none ↦ 0 | some i ↦ i ]) ≡ some p)
    × ((name : List ℕ) × (ocl.platform_name p.platform ≡ ok name)
        × IsUnlisted regex (env post_ocl_platforms_blacklist) name)
    × ((name : List ℕ) × (ocl.device_name p.device ≡ ok name)
        × IsUnlisted regex (env post_ocl_devices_blacklist) name)

select_provider-place :
    (ocl : OpenCl) (E : Type 0) (id : Option ProviderId) (providers : List (Provider ocl))
    (provider : Provider ocl)
    → select_provider ocl {E = E} id providers ≡ done provider
    → get_elem? providers (elim id [ none ↦ 0 | some i ↦ i ]) ≡ some provider
unfolding select_provider
select_provider-place ocl E none providers provider e =
    elim (Option-cases (get_elem? providers 0)) [
      | inl missing ↦ absurd (cc (rw (missing, select_provider) at e))
      | inr (p, at_front) ↦ at_front ∙ ap some (cc (rw (at_front, select_provider) at e))
    ]
select_provider-place ocl E (some i) providers provider e =
    elim (Option-cases (get_elem? providers i)) [
      | inl missing ↦ absurd (cc (rw (missing, select_provider) at e))
      | inr (p, there) ↦ there ∙ ap some (cc (rw (there, select_provider) at e))
    ]

-- The provider that is selected is at the place of the list that was asked for, or the first where no
-- place was. Its platform and its device have names; if the environment has a blacklist for platforms
-- that is a regular expression, the name of the platform does not match it, and if it has one for
-- devices, the name of the device does not match that.
pub select_provider-IsChosen :
    (ocl : OpenCl) (E : Type 0) (regex : RegexCrate) (env : Environment)
    (device_types : Option ocl.DeviceType) (id : Option ProviderId)
    (providers : List (Provider ocl)) (provider : Provider ocl)
    → get_providers ocl {E = E} regex env device_types ≡ done providers
    → select_provider ocl {E = E} id providers ≡ done provider
    → IsChosen ocl regex env id providers provider
unfolding create_platform_filter create_device_filter
select_provider-IsChosen ocl E regex env device_types id providers provider e f =
    let ((platform, p, p_passes), (device, d, d_passes)) =
      Holds-done (IsAllowed ocl (create_platform_filter regex env) (create_device_filter regex env))
        (select_provider-Holds ocl E _ id providers
          (get_providers-IsAllowed ocl E regex env device_types providers e))
        f in
    (
      select_provider-place ocl E id providers provider f,
      (
        platform,
        p,
        create_blacklist_filter-IsUnlisted regex (env post_ocl_platforms_blacklist) platform
            p_passes,
      ),
      (
        device,
        d,
        create_blacklist_filter-IsUnlisted regex (env post_ocl_devices_blacklist) device d_passes,
      ),
    )
