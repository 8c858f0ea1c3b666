-- ===== src/RandomValues/Shuffle.antt =====
-- The items that come out of the iterator are those that went in.
use post_rs.Base.{
  ℕ, zero, suc, ◌+◌, ◌-◌, ◌≤◌, ◌≡◌, refl, sym, ap, ◌∙◌, arith, some, List, [], ◌∷◌, ◌++◌,
}
use post_rs.Base.{
  length, get_elem?, set, take, drop, take-append-drop, ◌==◌, Option-cases, Bool-cases, inl, inr,
}
use post_rs.RandomValues.{
  swap, Next, RandomValuesIterator, take_at, next, draw, max_allowed, take_items, new_iterator,
}
use post_rs.RandomValues.{item, finished, panic, out_of_fuel}
use post_rs.Crates.{Blake3}
use mathlib.Core.List.{Perm, append-nil, append_assoc}
use mathlib.Core.Path.{subst}
use mathlib.Core.List.Perm

module _ {ℓ} {A : Type ℓ} where
  -- Writing `y` over `x` exchanges the two.
  set-perm :
      (xs : List A) (i : ℕ) (x y : A) → get_elem? xs i ≡ some x → Perm (y ∷ xs) (x ∷ set xs i y)
  set-perm [] i x y e = cc
  set-perm (h ∷ t) zero x y e = let same : h ≡ x = cc in rw same (Perm.swap x y t)
  set-perm (h ∷ t) (suc i) x y e =
      Perm.trans (Perm.swap h y t)
        (Perm.trans (Perm.cons h (set-perm t i x y e)) (Perm.swap x h (set t i y)))

  get_elem?-set_other :
      (xs : List A) (i j : ℕ) (x y : A)
      → get_elem? xs i ≡ some x
      → get_elem? xs j ≡ some y
      → get_elem? (set xs i y) j ≡ some y
  get_elem?-set_other [] i j x y e f = f
  get_elem?-set_other (h ∷ t) zero zero x y e f = refl
  get_elem?-set_other (h ∷ t) zero (suc j) x y e f = f
  get_elem?-set_other (h ∷ t) (suc i) zero x y e f = f
  get_elem?-set_other (h ∷ t) (suc i) (suc j) x y e f = get_elem?-set_other t i j x y e f

  swap-perm : (xs ys : List A) (i j : ℕ) → swap xs i j ≡ some ys → Perm ys xs
  unfolding swap
  swap-perm xs ys i j e = elim (Option-cases (get_elem? xs i)) [
    | inl missing ↦ absurd (ground (arith, missing))
    | inr (x, at_i) ↦ elim (Option-cases (get_elem? xs j)) [
      | inl missing ↦ absurd (ground (arith, missing))
      | inr (y, at_j) ↦
          let same : set (set xs i y) j x ≡ ys = ground arith in
          rw (← same) (
            Perm.cons_inv (
              Perm.symm (
                Perm.trans (set-perm xs i x y at_i)
                  (set-perm (set xs i y) j y x (get_elem?-set_other xs i j x y at_i at_j)))))
    ]
  ]

  take-set : (xs : List A) (i j : ℕ) (v : A) → i ≤ j → take i (set xs j v) ≡ take i xs
  take-set xs zero j v h = refl
  take-set [] (suc i) j v h = refl
  take-set (x ∷ xs) (suc i) zero v h = absurd (omega arith)
  take-set (x ∷ xs) (suc i) (suc j) v h = ap (◌∷◌ x) (take-set xs i j v (omega arith))

  take-swap : (xs ys : List A) (i j : ℕ) → i ≤ j → swap xs i j ≡ some ys → take i ys ≡ take i xs
  unfolding swap
  take-swap xs ys i j h e = elim (Option-cases (get_elem? xs i)) [
    | inl missing ↦ absurd (ground (arith, missing))
    | inr (x, at_i) ↦ elim (Option-cases (get_elem? xs j)) [
      | inl missing ↦ absurd (ground (arith, missing))
      | inr (y, at_j) ↦
          let same : set (set xs i y) j x ≡ ys = ground arith in
          rw (← same) (take-set (set xs i y) i j x h ∙ take-set xs i i y (omega arith))
    ]
  ]

  take-suc :
      (xs : List A) (i : ℕ) (v : A)
      → get_elem? xs i ≡ some v
      → take (suc i) xs ≡ take i xs ++ (v ∷ [])
  take-suc [] i v e = absurd (ground arith)
  take-suc (x ∷ xs) zero v e = let same : x ≡ v = cc in ap (λ t. t ∷ []) same
  take-suc (x ∷ xs) (suc i) v e = ap (◌∷◌ x) (take-suc xs i v e)

module _ (blake3 : Blake3) {T : Type 0} where
  -- What a step that returns `value` did.
  pub record Picked (it it' : RandomValuesIterator blake3 T) (value : T) : Type 0 where
    pub offset : ℕ
    pub swapped : swap it.items it.idx (offset + it.idx) ≡ some it'.items
    pub picked : get_elem? it'.items it.idx ≡ some value
    pub moved : it'.idx ≡ it.idx + 1

  take_at-Picked :
      (it it' : RandomValuesIterator blake3 T) (value : T) (drawn : ℕ × blake3.Reader)
      → take_at blake3 it drawn ≡ item (value, it')
      → Picked it it' value
  unfolding take_at
  take_at-Picked it it' value (offset, rng) e = record {
    offset = offset;
    swapped = ground arith;
    picked = ground arith;
    moved = ground arith;
  }

  pub next-Picked :
      (fuel : ℕ) (it it' : RandomValuesIterator blake3 T) (value : T)
      → next blake3 fuel it ≡ item (value, it')
      → Picked it it' value
  unfolding next
  next-Picked fuel it it' value e = elim (Bool-cases (length it.items - it.idx == 0)) [
    | inl over ↦ absurd (ground (arith, over))
    | inr more ↦ elim (Option-cases (max_allowed (length it.items - it.idx))) [
      | inl stop ↦ absurd (ground (arith, more, stop))
      | inr (allowed, found) ↦
          elim (Option-cases (draw blake3 fuel allowed (length it.items - it.idx) it.rng)) [
            | inl stop ↦ absurd (ground (arith, more, found, stop))
            | inr (drawn, d) ↦ take_at-Picked it it' value drawn (ground (arith, more, found, d))
          ]
    ]
  ]

  -- A call of `next` that returns an item has put it behind those returned before, moved the
  -- index on by one, and only permuted the items.
  pub next_lem :
      (fuel : ℕ) (it it' : RandomValuesIterator blake3 T) (value : T)
      → next blake3 fuel it ≡ item (value, it')
      → (it'.idx ≡ it.idx + 1)
        × (take it'.idx it'.items ≡ take it.idx it.items ++ (value ∷ []))
        × Perm it'.items it.items
  next_lem fuel it it' value e =
      let p = next-Picked fuel it it' value e in
      let at : it'.idx ≡ suc it.idx = omega (arith, p.moved) in
      (
        p.moved,
        rw at (
            take-suc it'.items it.idx value p.picked
            ∙ ap (λ t. t ++ (value ∷ []))
                (take-swap it.items it'.items it.idx _ (omega arith) p.swapped)),
        swap-perm it.items it'.items it.idx _ p.swapped,
      )

  -- From `it` to `it'` the values came out, and the items were permuted.
  abbrev Gave : RandomValuesIterator blake3 T → RandomValuesIterator blake3 T → List T → Type 0
  Gave it it' values =
      (take it'.idx it'.items ≡ take it.idx it.items ++ values) × Perm it'.items it.items

  Gave-nil :
      (it it' : RandomValuesIterator blake3 T) (values : List T)
      → it ≡ it'
      → [] ≡ values
      → Gave it it' values
  Gave-nil it it' values e f =
      rw (← e, ← f) (sym (append-nil (take it.idx it.items)), Perm.refl it.items)

  Gave-cons :
      (it it' it'' : RandomValuesIterator blake3 T) (value : T) (values : List T)
      → Gave it it' (value ∷ [])
      → Gave it' it'' values
      → Gave it it'' (value ∷ values)
  Gave-cons it it' it'' value values g h = (
    h.0 ∙ ap (λ t. t ++ values) g.0 ∙ append_assoc (take it.idx it.items) (value ∷ []) values,
    Perm.trans h.1 g.1,
  )

  take_items-Gave :
      (fuel count : ℕ) (it it' : RandomValuesIterator blake3 T) (values : List T)
      → take_items blake3 fuel count it ≡ some (values, it')
      → Gave it it' values
  unfolding take_items
  take_items-Gave fuel zero it it' values e = Gave-nil it it' values (ground arith) (ground arith)
  take_items-Gave fuel (suc count) it it' values e =
      go (take_items-Gave fuel count) (next blake3 fuel it) refl
    where
      go :
          ((it1 it2 : RandomValuesIterator blake3 T) (more : List T)
            → take_items blake3 fuel count it1 ≡ some (more, it2)
            → Gave it1 it2 more)
          → (r : Next (T × RandomValuesIterator blake3 T)) → next blake3 fuel it ≡ r
          → Gave it it' values
      go ih finished f = Gave-nil it it' values (ground (arith, f)) (ground (arith, f))
      go ih panic f = absurd (ground (arith, f))
      go ih out_of_fuel f = absurd (ground (arith, f))
      go ih (item (value, it1)) f = elim (Option-cases (take_items blake3 fuel count it1)) [
        | inl stop ↦ absurd (ground (arith, f, stop))
        | inr ((more, it2), g) ↦
            let n = next_lem fuel it it1 value f in
            let shape = Gave-cons it it1 it2 value more (n.1, n.2) (ih it1 it2 more g) in
            let last : it2 ≡ it' = ground (arith, f, g) in
            let all : value ∷ more ≡ values = ground (arith, f, g) in rw (← last, ← all) shape
      ]

  -- The values that the iterator gives, with some of the input left over, are a permutation of
  -- the input: each item is given at most once.
  pub take_items-perm :
      (fuel count : ℕ) (input : List T) (seed : List (List ℕ)) {values : List T}
      {it : RandomValuesIterator blake3 T}
      → take_items blake3 fuel count (new_iterator blake3 input seed) ≡ some (values, it)
      → (rest : List T) × Perm (values ++ rest) input
  unfolding new_iterator
  take_items-perm fuel count input seed {values} {it} e =
      let (front, perm) = take_items-Gave fuel count _ it values e in
      (
        drop it.idx it.items,
        subst (λ t. Perm (t ++ drop it.idx it.items) input) front
            (subst (λ t. Perm t input) (sym (take-append-drop it.idx it.items)) perm),
      )
