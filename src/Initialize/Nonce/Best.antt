-- ===== src/Initialize/Nonce/Best.antt =====
-- The best nonce of some labels, which the loop of `initialize_to` keeps.
use post_rs.Base.{
  ℕ, zero, suc, ◌+◌, ◌≤◌, ◌<◌, ◌≡◌, refl, sym, ap, ◌∙◌, arith, true, false, Option, none, some,
  List, [], ◌∷◌, ◌++◌, map,
}
use post_rs.Base.{
  length, get_elem?, get_elem?-snoc, get_elem?-snoc_last, get_elem?-snoc_left, get_elem?-lt, All,
  ltb→lt, Bool-cases, inl, inr, range_from, length-append,
}
use post_rs.Base.Bytes.{IsBytes, be_value, lex_lt, lex_lt-be_value}
use post_rs.Initialize.{VrfNonce, update_nonce}
use mathlib.Core.Path.{subst}
use mathlib.Core.List.{append_assoc, append-nil}

-- The nonce and the difficulty after a run over some labels.
unfoldable pub best :
    ℕ → List (List ℕ) → Option VrfNonce × Option (List ℕ) → Option VrfNonce × Option (List ℕ)
best index [] vrf = vrf
best index (label ∷ labels) vrf = best (index + 1) labels (update_nonce index label vrf)

pub best-append :
    (index : ℕ) (xs ys : List (List ℕ)) (vrf : Option VrfNonce × Option (List ℕ))
    → best index (xs ++ ys) vrf ≡ best (index + length xs) ys (best index xs vrf)
unfolding best
best-append index [] ys vrf = ap (λ (i : ℕ). best i ys vrf) (omega arith)
best-append index (x ∷ xs) ys vrf =
    best-append (index + 1) xs ys (update_nonce index x vrf)
    ∙ ap (λ (i : ℕ). best i ys (best (index + 1) xs (update_nonce index x vrf))) (omega arith)

-- `n` is the first of the least labels, and below the difficulty.
pub record IsFirstLeast (start : ℕ) (labels : List (List ℕ)) (difficulty : List ℕ) (n : VrfNonce)
    : Type 0 where
  pub below : be_value n.label < be_value difficulty
  pub position : ℕ
  pub at_index : n.index ≡ start + position
  pub has_label : get_elem? labels position ≡ some n.label
  pub least :
      (j : ℕ) (label : List ℕ) → get_elem? labels j ≡ some label → be_value n.label ≤ be_value label
  pub first :
      (j : ℕ) (label : List ℕ)
      → get_elem? labels j ≡ some label
      → j < position
      → be_value n.label < be_value label

abbrev pub IsBest : ℕ → List (List ℕ) → List ℕ → Option VrfNonce × Option (List ℕ) → Type 0
IsBest start labels difficulty (none, none) = ⊥
IsBest start labels difficulty (none, some d) =
    (d ≡ difficulty)
    × ((j : ℕ) (label : List ℕ)
        → get_elem? labels j ≡ some label
        → be_value difficulty ≤ be_value label)
IsBest start labels difficulty (some n, none) = ⊥
IsBest start labels difficulty (some n, some d) =
    (d ≡ n.label) × IsBytes 32 n.label × IsFirstLeast start labels difficulty n

lex_lt→lt :
    (a b : List ℕ) → IsBytes 32 a → IsBytes 32 b → lex_lt a b ≡ true → be_value a < be_value b
lex_lt→lt a b ha hb e = ltb→lt _ _ (sym (lex_lt-be_value a b (ha.0 ∙ sym hb.0) ha.1 hb.1) ∙ e)

not-lex_lt→le :
    (a b : List ℕ) → IsBytes 32 a → IsBytes 32 b → lex_lt a b ≡ false → be_value b ≤ be_value a
not-lex_lt→le a b ha hb e = ground (arith, lex_lt-be_value a b (ha.0 ∙ sym hb.0) ha.1 hb.1)

module _ (start : ℕ) (pre : List (List ℕ)) (difficulty label : List ℕ) where
  -- The label at the end of the run beats all before it.
  IsFirstLeast-last :
      be_value label < be_value difficulty
      → ((j : ℕ) (l : List ℕ) → get_elem? pre j ≡ some l → be_value label < be_value l)
      → IsFirstLeast start
          (pre ++ (label ∷ []))
          difficulty
          (record { index = start + length pre; label = label })
  IsFirstLeast-last below beats = record {
    below = below;
    position = length pre;
    at_index = refl;
    has_label = get_elem?-snoc_last pre label;
    least = λ j l e. elim (get_elem?-snoc pre label j e) [
      | inl (lt, f) ↦ omega (arith, beats j l f)
      | inr (at, f) ↦ let same : be_value label ≡ be_value l = ap be_value f in omega arith
    ];
    first = λ j l e lt. elim (get_elem?-snoc pre label j e) [
      | inl (lt', f) ↦ beats j l f
      | inr (at, f) ↦ absurd (omega arith)
    ];
  }

  -- A label that is not less leaves the nonce as it is.
  IsFirstLeast-keep :
      (n : VrfNonce)
      → IsFirstLeast start pre difficulty n
      → be_value n.label ≤ be_value label
      → IsFirstLeast start (pre ++ (label ∷ [])) difficulty n
  IsFirstLeast-keep n h le = record {
    below = h.below;
    position = h.position;
    at_index = h.at_index;
    has_label = get_elem?-snoc_left pre label h.position h.has_label;
    least = λ j l e. elim (get_elem?-snoc pre label j e) [
      | inl (lt, f) ↦ h.least j l f
      | inr (at, f) ↦ let same : be_value label ≡ be_value l = ap be_value f in omega arith
    ];
    first = λ j l e lt. elim (get_elem?-snoc pre label j e) [
      | inl (lt', f) ↦ h.first j l f lt
      | inr (at, f) ↦ absurd (omega (arith, position_lt h))
    ];
  }
    where
      position_lt : IsFirstLeast start pre difficulty n → h.position < length pre
      position_lt k = get_elem?-lt pre h.position h.has_label

  IsBest-snoc :
      (vrf : Option VrfNonce × Option (List ℕ))
      → IsBytes 32 difficulty
      → IsBytes 32 label
      → IsBest start pre difficulty vrf
      → IsBest start (pre ++ (label ∷ [])) difficulty (update_nonce (start + length pre) label vrf)
  unfolding update_nonce
  IsBest-snoc (none, none) hd hl h = elim h [ ]
  IsBest-snoc (some n, none) hd hl h = elim h [ ]
  IsBest-snoc (none, some d) hd hl (e, all_above) = elim (Bool-cases (lex_lt label d)) [
    | inl less ↦
        let lt : be_value label < be_value difficulty =
          lex_lt→lt label difficulty hl hd (ap (lex_lt label) (sym e) ∙ less) in
        rw (less, update_nonce)
          (refl, hl, IsFirstLeast-last lt (λ j l f. omega (arith, all_above j l f)))
    | inr not_less ↦
        let ge : be_value difficulty ≤ be_value label =
          not-lex_lt→le label difficulty hl hd (ap (lex_lt label) (sym e) ∙ not_less) in
        rw (not_less, update_nonce)
          (
            e,
            λ j l f. elim (get_elem?-snoc pre label j f) [
              | inl (lt, g) ↦ all_above j l g
              | inr (at, g) ↦ let same : be_value label ≡ be_value l = ap be_value g in omega arith
            ],
          )
  ]
  IsBest-snoc (some n, some d) hd hl (e, hn, h) = elim (Bool-cases (lex_lt label d)) [
    | inl less ↦
        let lt : be_value label < be_value n.label =
          lex_lt→lt label n.label hl hn (ap (lex_lt label) (sym e) ∙ less) in
        rw (less, update_nonce)
          (
            refl,
            hl,
            IsFirstLeast-last (omega (arith, h.below)) (λ j l f. omega (arith, h.least j l f)),
          )
    | inr not_less ↦
        let ge : be_value n.label ≤ be_value label =
          not-lex_lt→le label n.label hl hn (ap (lex_lt label) (sym e) ∙ not_less) in
        rw (not_less, update_nonce) (e, hn, IsFirstLeast-keep n h ge)
  ]

pub best-IsBest :
    (start : ℕ) (pre labels : List (List ℕ)) (difficulty : List ℕ)
    (vrf : Option VrfNonce × Option (List ℕ))
    → IsBytes 32 difficulty
    → All (IsBytes 32) labels
    → IsBest start pre difficulty vrf
    → IsBest start (pre ++ labels) difficulty (best (start + length pre) labels vrf)
unfolding best
best-IsBest start pre [] difficulty vrf hd hl h = rw append-nil h
best-IsBest start pre (label ∷ labels) difficulty vrf hd (hl, hls) h =
    let vrf' = update_nonce (start + length pre) label vrf in
    let index : start + length (pre ++ (label ∷ [])) ≡ start + length pre + 1 =
      omega (arith, length-append {0} pre (label ∷ [])) in
    subst (λ (i : ℕ). IsBest start (pre ++ (label ∷ labels)) difficulty (best i labels vrf')) index
      (subst
        (λ t. IsBest start t difficulty (best (start + length (pre ++ (label ∷ []))) labels vrf'))
        (append_assoc pre (label ∷ []) labels)
        (best-IsBest start (pre ++ (label ∷ [])) labels difficulty vrf' hd hls
          (IsBest-snoc start pre difficulty label vrf hd hl h)))

-- What the returned nonce is: `none` if no label is below the difficulty, and otherwise the first
-- of the least labels.
abbrev pub IsNonce : ℕ → List (List ℕ) → List ℕ → Option VrfNonce → Type 0
IsNonce start labels difficulty none =
    (j : ℕ) (label : List ℕ)
    → get_elem? labels j ≡ some label
    → be_value difficulty ≤ be_value label
IsNonce start labels difficulty (some n) = IsFirstLeast start labels difficulty n

pub best-IsNonce :
    (start : ℕ) (labels : List (List ℕ)) (difficulty : List ℕ)
    → IsBytes 32 difficulty
    → All (IsBytes 32) labels
    → IsNonce start labels difficulty (best start labels (none, some difficulty)).0
best-IsNonce start labels difficulty hd hls =
    let h =
      best-IsBest start [] labels difficulty (none, some difficulty) hd hls
        (refl, λ j label e. cc) in
    let zero_more : start + 0 ≡ start = omega arith in
    forget start labels difficulty _ (
      subst (λ (i : ℕ). IsBest start labels difficulty (best i labels (none, some difficulty)))
        zero_more h)
  where
    forget :
        (start : ℕ) (labels : List (List ℕ)) (difficulty : List ℕ)
        (vrf : Option VrfNonce × Option (List ℕ))
        → IsBest start labels difficulty vrf
        → IsNonce start labels difficulty vrf.0
    forget start labels difficulty (none, none) h = elim h [ ]
    forget start labels difficulty (none, some d) h = h.1
    forget start labels difficulty (some n, none) h = elim h [ ]
    forget start labels difficulty (some n, some d) h = h.2

pub All-labels {κ} :
    {A : Type κ} (f : ℕ → A) (P : A → Type 0) (start count : ℕ)
    → ((i : ℕ) → P (f i))
    → All P (map f (range_from start count))
All-labels f P start zero h = tt
All-labels f P start (suc count) h = (h start, All-labels f P (start + 1) count h)
