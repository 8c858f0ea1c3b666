-- ===== src/Verification/Indices.antt =====
-- The check of the selected indices.
use post_rs.Base.{ℕ, zero, suc, ◌≡◌, ◌↔◌, ◌⊎◌, inl, inr, refl, sym, ◌∙◌, arith, some, List, [], ◌∷◌}
use mathlib.Core.Path.{subst}
use post_rs.Base.{All, Option-cases}
use post_rs.Config.{ScryptParams}
use post_rs.RandomValues.{
  RandomValuesIterator, Next, item, finished, panic, out_of_fuel, next, take_items,
}
use post_rs.Verification.{
  Env, Check, Verdict, accepted, rejected, panicked, stuck, check_index, check_indices,
}

Next-cases :
    {A : Type 0} (r : Next A)
    → ((a : A) × (r ≡ item a)) ⊎ (r ≡ finished) ⊎ (r ≡ panic) ⊎ (r ≡ out_of_fuel)
Next-cases (item a) = inl (a, refl)
Next-cases finished = inr (inl refl)
Next-cases panic = inr (inr (inl refl))
Next-cases out_of_fuel = inr (inr (inr refl))

and_passes : {E : Type 0} → Verdict E → Verdict E → Verdict E
and_passes accepted w = w
and_passes (rejected e) w = rejected e
and_passes panicked w = panicked
and_passes stuck w = stuck

and_passes-accepted :
    {E : Type 0} (v w : Verdict E) → (and_passes v w ≡ accepted) ↔ ((v ≡ accepted) × (w ≡ accepted))
unfolding and_passes
and_passes-accepted v w = ground arith

module _ (E : Type 0) (env : Env) (check : Check env) (commitment : List ℕ)
    (params : ScryptParams) where
  -- The items drawn within the fuel all pass the check.
  unfoldable pub AllPass : ℕ → RandomValuesIterator env.blake3 ℕ → Type 0
  AllPass count it =
      (values : List ℕ) × (it' : RandomValuesIterator env.blake3 ℕ) × (take_items env.blake3
          env.fuel count it
        ≡ some (values, it'))
      × All (λ index. check_index {E = E} env check commitment params index ≡ accepted) values

  check_indices-item :
      (count : ℕ) (it it' : RandomValuesIterator env.blake3 ℕ) (index : ℕ)
      → next env.blake3 env.fuel it ≡ item (index, it')
      → check_indices {E = E} env check commitment params (suc count) it
        ≡ and_passes
            (check_index env check commitment params index)
            (check_indices env check commitment params count it')
  unfolding check_indices and_passes
  check_indices-item count it it' index e = ground (arith, e)

  take_items-tail :
      (count : ℕ) (it it' it'' : RandomValuesIterator env.blake3 ℕ) (index : ℕ) (values : List ℕ)
      → next env.blake3 env.fuel it ≡ item (index, it')
      → take_items env.blake3 env.fuel (suc count) it ≡ some (values, it'')
      → (tail : List ℕ) × (take_items env.blake3 env.fuel count it' ≡ some (tail, it''))
        × (values ≡ index ∷ tail)
  unfolding take_items
  take_items-tail count it it' it'' index values e t =
      elim (Option-cases (take_items env.blake3 env.fuel count it')) [
        | inr ((tail, rest), e') ↦
            let front : values ≡ index ∷ tail = ground (arith, e, e') in
            let back : rest ≡ it'' = ground (arith, e, e') in
            (tail, ground (arith, e', back), front)
        | inl e' ↦ absurd (ground (arith, e, e'))
      ]

  AllPass-item :
      (count : ℕ) (it it' : RandomValuesIterator env.blake3 ℕ) (index : ℕ)
      → next env.blake3 env.fuel it ≡ item (index, it')
      → (AllPass (suc count) it)
        ↔ ((check_index {E = E} env check commitment params index ≡ accepted) × AllPass count it')
  unfolding AllPass take_items
  AllPass-item count it it' index e = (
    λ (values, it'', t, ok).
        let (tail, e', same) = take_items-tail count it it' it'' index values e t in
        let (here, rest) =
          subst (λ is. All (λ i. check_index {E = E} env check commitment params i ≡ accepted) is)
            same ok in
        (here, (tail, it'', e', rest)),
    λ (here, p). (index ∷ p.0, p.1, ground (arith, e, p.2), (here, p.3)),
  )

  pub check_indices_iff :
      (count : ℕ) (it : RandomValuesIterator env.blake3 ℕ)
      → (check_indices {E = E} env check commitment params count it ≡ accepted) ↔ AllPass count it
  unfolding check_indices AllPass take_items
  check_indices_iff zero it = (λ e. ([], it, refl, tt), λ p. refl)
  check_indices_iff (suc count) it = elim (Next-cases (next env.blake3 env.fuel it)) [
    | inl ((index, it'), e) ↦
        let (to, from) =
          and_passes-accepted (check_index {E = E} env check commitment params index)
            (check_indices {E = E} env check commitment params count it') in
        let (ih_to, ih_from) = check_indices_iff count it' in
        let (split, join) = AllPass-item count it it' index e in
        let step = check_indices-item count it it' index e in
        (
          λ p. let (here, rest) = to (sym step ∙ p) in join (here, ih_to rest),
          λ p. let (here, rest) = split p in step ∙ from (here, ih_from rest),
        )
    | inr (inl e) ↦ (λ p. ([], it, ground (arith, e), tt), λ p. ground (arith, e))
    | inr (inr (inl e)) ↦ (λ p. ground (arith, e), λ (values, rest, t, ok). ground (arith, e))
    | inr (inr (inr e)) ↦ (λ p. ground (arith, e), λ (values, rest, t, ok). ground (arith, e))
  ]
