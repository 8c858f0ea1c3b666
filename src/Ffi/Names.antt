-- ===== src/Ffi/Names.antt =====
-- The entries that `get_providers` fills in.
use post_rs.Base.{
  ℕ, zero, suc, ◌+◌, ◌-◌, ◌<◌, ◌≡◌, ◌⊎◌, inl, inr, refl, ap, ◌∙◌, arith, Option, some, List, [],
  ◌∷◌, ◌++◌,
}
use mathlib.Core.Path.{subst}
use post_rs.Base.{◌%◌, ◌^◌, sym, take-append_exact}
use post_rs.Base.{length, take, drop, get_elem?, length-append, length-take, length-drop}
use post_rs.Base.Outcome.{done}
use post_rs.Ocl.Interface.{OpenCl}
use post_rs.Ocl.Filtering.{RegexCrate, Environment}
use post_rs.Ocl.Providers.{Provider, get_providers}
use post_rs.Ffi.Initialization.{
  CProvider, cpu, gpu, copy_to_front, cpu_entry, gpu_entry, fill_providers, get_providers_c,
  initialize_ok,
}

-- An array of 64 bytes that starts with the text, cut to 63 bytes, and a null: C reads that text.
abbrev pub IsName : List ℕ → List ℕ → Type 0
IsName text name =
    (length name ≡ 64) × (take (length (take 63 text) + 1) name ≡ take 63 text ++ (0 ∷ []))

-- `[CPU] scrypt-jane`
abbrev pub cpu_text : List ℕ
cpu_text =
    91 ∷ 67 ∷ 80 ∷ 85 ∷ 93 ∷ 32 ∷ 115 ∷ 99 ∷ 114 ∷ 121 ∷ 112 ∷ 116 ∷ 45 ∷ 106 ∷ 97 ∷ 110 ∷ 101 ∷ []

module _ (ocl : OpenCl) (display : Provider ocl → List ℕ) where
  gpu_entry-IsName :
      (id : ℕ) (provider : Provider ocl) (out : CProvider)
      → length out.name ≡ 64
      → IsName (display provider) (gpu_entry ocl display id provider out).name
  gpu_entry-IsName id provider out h =
      let text = take 63 (display provider) in
      let cut : length out.name - 1 ≡ 63 = omega arith in
      let whole = length-append text (0 ∷ []) in
      let name : IsName (display provider) (copy_to_front out.name (text ++ (0 ∷ []))) = (
        omega (
          arith,
          length-take 63 (display provider),
          whole,
          length-append (text ++ (0 ∷ [])) (drop (length (text ++ (0 ∷ []))) out.name),
          length-drop (length (text ++ (0 ∷ []))) out.name,
        ),
        take-append_exact (text ++ (0 ∷ [])) (drop (length (text ++ (0 ∷ []))) out.name)
            (length text + 1) whole,
      ) in
      subst
        (λ (n : ℕ).
          IsName (display provider)
            (copy_to_front out.name (take n (display provider) ++ (0 ∷ []))))
        (sym cut) name

  -- What stands at a place of the array afterwards, from the number `id` on: a provider with the
  -- number of its place, the CPU with the largest number, or what was there.
  abbrev pub IsEntry : ℕ → List (Provider ocl) → ℕ → CProvider → CProvider → Type 0
  IsEntry id providers i out entry =
      ((provider : Provider ocl) × (get_elem? providers i ≡ some provider)
        × (entry.id ≡ (id + i) % 2 ^ 32)
        × (entry.class ≡ gpu)
        × IsName (display provider) entry.name)
      ⊎ ((i ≡ length providers)
          × (entry.id ≡ 2 ^ 32 - 1)
          × (entry.class ≡ cpu)
          × IsName cpu_text entry.name)
      ⊎ ((length providers < i) × (entry ≡ out))

  -- The entry at a place.
  abbrev pub HasEntry : ℕ → List (Provider ocl) → ℕ → CProvider → Option CProvider → Type 0
  HasEntry id providers i out found =
      (entry : CProvider) × (found ≡ some entry) × IsEntry id providers i out entry

  fill_providers-HasEntry :
      (id : ℕ) (outs : List CProvider) (providers : List (Provider ocl)) (i : ℕ) (out : CProvider)
      → length out.name ≡ 64
      → get_elem? outs i ≡ some out
      → HasEntry id providers i out (get_elem? (fill_providers ocl display id outs providers) i)
  unfolding fill_providers
  fill_providers-HasEntry id [] providers i out size e = absurd (cc e)
  fill_providers-HasEntry id (o ∷ outs) [] zero out size e =
      (cpu_entry, refl, inr (inl (refl, refl, refl, (refl, refl))))
  fill_providers-HasEntry id (o ∷ outs) [] (suc i) out size e =
      (out, e, inr (inr (omega arith, refl)))
  fill_providers-HasEntry id (o ∷ outs) (provider ∷ providers) zero out size e =
      let same : o ≡ out = cc e in
      (
        gpu_entry ocl display id provider o,
        refl,
        inl (
          provider,
          refl,
          omega arith,
          refl,
          gpu_entry-IsName id provider o (ap (λ (t : CProvider). length t.name) same ∙ size),
        ),
      )
  fill_providers-HasEntry id (o ∷ outs) (provider ∷ providers) (suc i) out size e =
      let (entry, found, is) = fill_providers-HasEntry (id + 1) outs providers i out size e in
      (
        entry,
        found,
        elim is [
          | inl (p, f, number, class, name) ↦ inl (p, f, omega (arith, number), class, name)
          | inr (inl (same, number, class, name)) ↦ inr (inl (ap suc same, number, class, name))
          | inr (inr (less, rest)) ↦ inr (inr (omega arith, rest))
        ],
      )

  length-fill_providers :
      (id : ℕ) (outs : List CProvider) (providers : List (Provider ocl))
      → length (fill_providers ocl display id outs providers) ≡ length outs
  unfolding fill_providers
  length-fill_providers id [] providers = refl
  length-fill_providers id (o ∷ outs) [] = refl
  length-fill_providers id (o ∷ outs) (provider ∷ providers) =
      ap suc (length-fill_providers (id + 1) outs providers)

  -- When the providers are listed, `get_providers` succeeds and keeps the length of the array. A place
  -- of the array with a name of 64 bytes then holds, if there is a provider for it, that provider: the
  -- class of a GPU, the number of the place as a 32-bit number, and a name that starts with the text of
  -- the provider, cut to 63 bytes, and a null. The place after the last provider holds the CPU: its
  -- class, the largest 32-bit number, and its name with a null. A place after that is unchanged.
  pub get_providers_c-IsEntry :
      (regex : RegexCrate) (env : Environment) (gpu_type : ocl.DeviceType) (outs : List CProvider)
      (providers : List (Provider ocl)) (i : ℕ) (out : CProvider)
      → get_providers ocl {E = Unit {0}} regex env (some gpu_type) ≡ done providers
      → length out.name ≡ 64
      → get_elem? outs i ≡ some out
      → (outs' : List CProvider) × (entry : CProvider) × (get_providers_c ocl display regex env
            gpu_type
            (some outs)
          ≡ some (initialize_ok, some outs'))
        × (length outs' ≡ length outs)
        × (get_elem? outs' i ≡ some entry)
        × IsEntry 0 providers i out entry
  unfolding get_providers_c
  get_providers_c-IsEntry regex env gpu_type outs providers i out e size at =
      let (entry, found, is) = fill_providers-HasEntry 0 outs providers i out size at in
      (
        fill_providers ocl display 0 outs providers,
        entry,
        rw (get_providers_c, e) refl,
        length-fill_providers 0 outs providers,
        found,
        is,
      )
