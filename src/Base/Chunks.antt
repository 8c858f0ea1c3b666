-- ===== src/Base/Chunks.antt =====
-- `slice::chunks_exact`.
use post_rs.Base.Lists.{
  length, take, drop, All, length-take, length-drop, length-append, take-append_exact,
  drop-append_exact,
}
use Prim.Native.Nat.{ℕ, zero, suc, ◌≤◌, ◌<◌, compare, Ordering}
use mathlib.Core.Path.{◌≡◌, refl, sym, subst, ap, ap₂, ◌∙◌}
use mathlib.Core.List.{List, [], ◌∷◌, ◌++◌}
use native.Mathlib.Omega.{arith}
use native.Mathlib.Decide.{dec_lt}

module _ {ℓ} {A : Type ℓ} where
  -- `slice::chunks_exact(n)`, for as many chunks as the fuel: the length of the list is enough.
  unfoldable pub chunks_loop : ℕ → ℕ → List A → List (List A)
  chunks_loop zero n xs = []
  chunks_loop (suc fuel) n xs = elim (compare (length xs) n) [
    | Ordering.lt ↦ []
    | _ ↦ take n xs ∷ chunks_loop fuel n (drop n xs)
  ]

  unfoldable pub chunks_exact : ℕ → List A → List (List A)
  unfolding chunks_loop
  chunks_exact n xs = chunks_loop (length xs) n xs

module _ {ℓ} {A : Type ℓ} where
  pub chunks_loop_end : (fuel n : ℕ) (xs : List A) → length xs < n → chunks_loop fuel n xs ≡ []
  unfolding chunks_loop
  chunks_loop_end zero n xs h = refl
  chunks_loop_end (suc fuel) n xs h = ground arith

  pub chunks_loop_more :
      (fuel n : ℕ) (xs : List A)
      → n ≤ length xs
      → chunks_loop (suc fuel) n xs ≡ take n xs ∷ chunks_loop fuel n (drop n xs)
  unfolding chunks_loop
  chunks_loop_more fuel n xs h = ground arith

  All-chunks_loop : (fuel n : ℕ) (xs : List A) → All (λ c. length c ≡ n) (chunks_loop fuel n xs)
  unfolding chunks_loop
  All-chunks_loop zero n xs = tt
  All-chunks_loop (suc fuel) n xs = elim (dec_lt (length xs) n) [
    | yes less ↦ subst (All (λ c. length c ≡ n)) (sym (chunks_loop_end (suc fuel) n xs less)) tt
    | no enough ↦
        subst (All (λ c. length c ≡ n)) (sym (chunks_loop_more fuel n xs (omega arith)))
          (omega (arith, length-take n xs), All-chunks_loop fuel n (drop n xs))
  ]

  pub All-chunks_exact : (n : ℕ) (xs : List A) → 0 < n → All (λ c. length c ≡ n) (chunks_exact n xs)
  unfolding chunks_exact
  All-chunks_exact n xs h = All-chunks_loop (length xs) n xs

  pub chunks_exact_end : (n : ℕ) (xs : List A) → length xs < n → chunks_exact n xs ≡ []
  unfolding chunks_exact
  chunks_exact_end n xs h = chunks_loop_end (length xs) n xs h

  two_fuels :
      (f g n : ℕ) (xs : List A)
      → 0 < n
      → length xs ≤ f
      → length xs ≤ g
      → chunks_loop f n xs ≡ chunks_loop g n xs
  two_fuels zero g n xs pos hf hg =
      chunks_loop_end zero n xs (omega arith) ∙ sym (chunks_loop_end g n xs (omega arith))
  two_fuels (suc f) zero n xs pos hf hg =
      chunks_loop_end (suc f) n xs (omega arith) ∙ sym (chunks_loop_end zero n xs (omega arith))
  two_fuels (suc f) (suc g) n xs pos hf hg = elim (dec_lt (length xs) n) [
    | yes less ↦ chunks_loop_end (suc f) n xs less ∙ sym (chunks_loop_end (suc g) n xs less)
    | no enough ↦
        chunks_loop_more f n xs (omega arith)
        ∙ ap (◌∷◌ (take n xs)) (
            two_fuels f g n (drop n xs) pos (omega (arith, length-drop n xs))
              (omega (arith, length-drop n xs)))
        ∙ sym (chunks_loop_more g n xs (omega arith))
  ]

  pub chunks_exact_more :
      (n : ℕ) (c rest : List A)
      → 0 < n
      → length c ≡ n
      → chunks_exact n (c ++ rest) ≡ c ∷ chunks_exact n rest
  unfolding chunks_exact
  chunks_exact_more n c rest pos h =
      let size = length-append c rest in
      two_fuels (length (c ++ rest)) (suc (length (c ++ rest))) n (c ++ rest) pos (omega arith)
        (omega arith)
      ∙ chunks_loop_more (length (c ++ rest)) n (c ++ rest) (omega arith)
      ∙ ap₂ ◌∷◌ (take-append_exact c rest n h) (
          ap (chunks_loop (length (c ++ rest)) n) (drop-append_exact c rest n h)
          ∙ two_fuels (length (c ++ rest)) (length rest) n rest pos (omega arith) (omega arith))
