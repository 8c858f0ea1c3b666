-- ===== src/Initialize/Nonce.antt =====
-- The VRF nonce that the loop of `initialize_to` finds.
mod Best
use post_rs.Base.{
  ℕ, zero, suc, ◌+◌, ◌-◌, ◌≤◌, ◌<◌, ◌≡◌, ◌⊎◌, refl, sym, ap, ◌∙◌, arith, true, false, Option, none,
  some, List, [], ◌∷◌, ◌++◌, map,
}
use post_rs.Base.{
  length, take, get_elem?, All, ltb→lt, Option-cases, ◌==◌, Bool-cases, inl, inr, range_from,
  length-append,
}
use post_rs.Base.Bytes.{IsBytes, be_value, lex_lt, lex_lt-be_value}
use post_rs.Base.Outcome.{done, lift, expect, >>=-eq-done, expect-eq-done}
use post_rs.Crates.{Scrypt}
use post_rs.Config.{ScryptFactors, ScryptParams, to_scrypt_factors}
use post_rs.Prove.Nonces.{Range}
use post_rs.Initialize.{
  VrfNonce, Writer, update_nonce, write_labels, label_of, labels_of, initialize_to,
}
use mathlib.Core.Path.{subst}
use mathlib.Core.List.{append_assoc, append-nil}
unfoldable pub use Best.{best}
pub use Best.{best-append, IsFirstLeast, IsNonce, best-IsNonce, All-labels}

module _ (scrypt : Scrypt)
    (bytes : (input salt : List ℕ) (factors : ScryptFactors)
      → IsBytes 32 (scrypt.scrypt input salt factors 32)) where
  pub labels_of-IsBytes :
      (params : ScryptParams) (commitment : List ℕ) (labels : Range) {label_list : List (List ℕ)}
      → labels_of scrypt params commitment labels ≡ some label_list
      → All (IsBytes 32) label_list
  unfolding labels_of label_of
  labels_of-IsBytes params commitment labels {label_list} e =
      elim (Option-cases (to_scrypt_factors params)) [
        | inl no_factors ↦ elim (Bool-cases (labels.end - labels.start == 0)) [
          | inl empty ↦
              let same : [] ≡ label_list = ground (arith, no_factors, empty) in rw (← same) tt
          | inr more ↦ absurd (ground (arith, no_factors, more))
        ]
        | inr (factors, f) ↦
            let same : map (label_of scrypt factors commitment)
                  (range_from labels.start (labels.end - labels.start))
                ≡ label_list =
              ground (arith, f) in
            rw (← same) (
              All-labels _ (IsBytes 32) labels.start (labels.end - labels.start) (λ i. bytes _ _ _))
      ]

module _ {E : Type 0} (writer : Writer E) where
  pub write_labels-best :
      (index : ℕ) (labels : List (List ℕ)) (vrf : Option VrfNonce × Option (List ℕ))
      (w w' : writer.W) (vrf_nonce : Option VrfNonce)
      → write_labels writer index labels vrf w ≡ done (w', vrf_nonce)
      → (best index labels vrf).0 ≡ vrf_nonce
  unfolding write_labels best
  write_labels-best index [] vrf w w' vrf_nonce e = ground arith
  write_labels-best index (label ∷ labels) vrf w w' vrf_nonce e =
      let (w1, f, g) = >>=-eq-done (lift (writer.write_all w (take 16 label))) _ e in
      write_labels-best (index + 1) labels (update_nonce index label vrf) w1 w' vrf_nonce g

  -- With a difficulty, a run of `initialize_to` that succeeds returns the index and label of the
  -- first of the least labels in the range, if any label is below the difficulty, and `none` if
  -- none is. Scrypt gives 32 bytes.
  pub initialize_to-IsNonce :
      (scrypt : Scrypt) (params : ScryptParams) (w w' : writer.W) (commitment : List ℕ)
      (labels : Range) (difficulty : List ℕ) (vrf_nonce : Option VrfNonce)
      → ((input salt : List ℕ) (factors : ScryptFactors)
          → IsBytes 32 (scrypt.scrypt input salt factors 32))
      → IsBytes 32 difficulty
      → initialize_to writer scrypt params w commitment labels (some difficulty)
        ≡ done (w', vrf_nonce)
      → (label_list : List (List ℕ)) × (labels_of scrypt params commitment labels ≡ some label_list)
        × IsNonce labels.start label_list difficulty vrf_nonce
  unfolding initialize_to
  initialize_to-IsNonce scrypt params w w' commitment labels difficulty vrf_nonce bytes hd e =
      let (ls, f, g) = >>=-eq-done (expect (labels_of scrypt params commitment labels)) _ e in
      let listed = expect-eq-done (labels_of scrypt params commitment labels) f in
      (
        ls,
        listed,
        subst (IsNonce labels.start ls difficulty)
            (write_labels-best labels.start ls (none, some difficulty) w w' vrf_nonce g)
            (best-IsNonce labels.start ls difficulty hd
              (labels_of-IsBytes scrypt bytes params commitment labels listed)),
      )
