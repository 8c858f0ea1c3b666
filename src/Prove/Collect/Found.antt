-- ===== src/Prove/Collect/Found.antt =====
-- What the collected indices are when there are enough.
use post_rs.Base.{
  ℕ, ◌<◌, ◌≡◌, ◌∙◌, refl, sym, ap, arith, inl, inr, true, false, List, [], ◌∷◌, ◌++◌,
}
use post_rs.Base.{length, leb, ◌==◌, if◌then◌else◌, Bool-cases, length-append}
use post_rs.Prove.Scan.{going, found, consumed}
use post_rs.Prove.Scan.Feed.{feed}
use post_rs.Prove.Collect.{Indexes, entry, set_entry, collect}
use mathlib.Core.List.{append_assoc}

-- The indices that a list of candidates has for a nonce, in order.
abbrev pub indexes_of : ℕ → List (ℕ × ℕ) → List ℕ
indexes_of nonce [] = []
indexes_of nonce ((other, index) ∷ cs) =
    if nonce == other then index ∷ indexes_of nonce cs else indexes_of nonce cs

entry-nil : (nonce : ℕ) → entry nonce [] ≡ []
unfolding entry
entry-nil nonce = refl

pub entry-set_entry :
    (nonce other : ℕ) (vec : List ℕ) (indexes : Indexes)
    → entry other (set_entry nonce vec indexes)
      ≡ (if other == nonce then vec else entry other indexes)
unfolding entry set_entry
entry-set_entry nonce other vec [] = ground arith
entry-set_entry nonce other vec ((n, old) ∷ indexes) =
    ground (arith, entry-set_entry nonce other vec indexes)

indexes_of-snoc :
    (nonce other index : ℕ) (cs : List (ℕ × ℕ))
    → indexes_of nonce (cs ++ ((other, index) ∷ []))
      ≡ (if nonce == other then indexes_of nonce cs ++ (index ∷ []) else indexes_of nonce cs)
indexes_of-snoc nonce other index [] = ground arith
indexes_of-snoc nonce other index ((n, i) ∷ cs) =
    ground (arith, indexes_of-snoc nonce other index cs)

module _ (k2 : ℕ) where
  -- The map holds what the candidates so far gave, and fewer than `k2` indices for each nonce.
  abbrev Holds : Indexes → List (ℕ × ℕ) → Type 0
  Holds indexes before =
      (nonce : ℕ)
      → (entry nonce indexes ≡ indexes_of nonce before) × (length (indexes_of nonce before) < k2)

  step_going :
      (indexes : Indexes) (before : List (ℕ × ℕ)) (nonce index : ℕ)
      → Holds indexes before
      → leb k2 (length (entry nonce indexes ++ (index ∷ []))) ≡ false
      → Holds
          (set_entry nonce (entry nonce indexes ++ (index ∷ [])) indexes)
          (before ++ ((nonce, index) ∷ []))
  step_going indexes before nonce index holds few other =
      let vec : List ℕ = entry nonce indexes ++ (index ∷ []) in
      let held = entry-set_entry nonce other vec indexes in
      let given = indexes_of-snoc other nonce index before in
      let (same, small) = holds other in
      elim (Bool-cases (other == nonce)) [
        | inr apart ↦
            (ground (arith, held, given, same, apart), ground (arith, given, small, apart))
        | inl equal ↦
            let here : other ≡ nonce = ground arith in
            let old : entry nonce indexes ≡ indexes_of other before =
              ap (λ (n : ℕ). entry n indexes) (sym here) ∙ same in
            let new : vec ≡ indexes_of other (before ++ ((nonce, index) ∷ [])) =
              ap (λ t. t ++ (index ∷ [])) old ∙ sym (ground (arith, given, equal)) in
            (ground (arith, held, equal) ∙ new, ground (arith, ap length new, few))
      ]

  feed_more :
      (indexes : Indexes) (nonce index : ℕ) (cs : List (ℕ × ℕ))
      → leb k2 (length (entry nonce indexes ++ (index ∷ []))) ≡ false
      → feed (collect k2) ((nonce, index) ∷ cs) indexes
        ≡ feed (collect k2) cs (set_entry nonce (entry nonce indexes ++ (index ∷ [])) indexes)
  unfolding feed collect consumed
  feed_more indexes nonce index cs few = ground (arith, few)

  feed_enough :
      (indexes : Indexes) (nonce index : ℕ) (cs : List (ℕ × ℕ))
      → leb k2 (length (entry nonce indexes ++ (index ∷ []))) ≡ true
      → feed (collect k2) ((nonce, index) ∷ cs) indexes
        ≡ found (set_entry nonce [] indexes) nonce (entry nonce indexes ++ (index ∷ []))
  unfolding feed collect consumed
  feed_enough indexes nonce index cs enough = ground (arith, enough)

  feed_nothing : (indexes : Indexes) → feed (collect k2) [] indexes ≡ going indexes
  unfolding feed
  feed_nothing indexes = refl

  completed :
      (indexes : Indexes) (before : List (ℕ × ℕ)) (n i : ℕ)
      → Holds indexes before
      → entry n indexes ++ (i ∷ []) ≡ indexes_of n (before ++ ((n, i) ∷ []))
  completed indexes before n i holds =
      ap (λ t. t ++ (i ∷ [])) (holds n).0 ∙ sym (ground (arith, indexes_of-snoc n n i before))

  complete :
      (indexes : Indexes) (before : List (ℕ × ℕ)) (n i : ℕ)
      → Holds indexes before
      → leb k2 (length (entry n indexes ++ (i ∷ []))) ≡ true
      → length (entry n indexes ++ (i ∷ [])) ≡ k2
  complete indexes before n i holds enough =
      ground (arith, length-append (entry n indexes) (i ∷ []), ap length (holds n).0, (holds n).1)

  -- The first candidates of a run up to the one that completes the indices.
  abbrev pub IsFirst : List (ℕ × ℕ) → ℕ → List ℕ → Type 0
  IsFirst cs nonce result =
      (given rest : List (ℕ × ℕ)) × (cs ≡ given ++ rest)
      × (result ≡ indexes_of nonce given)
      × (length result ≡ k2)

  feed_from :
      (cs before : List (ℕ × ℕ)) (indexes indexes' : Indexes) (nonce : ℕ) (result : List ℕ)
      → Holds indexes before
      → feed (collect k2) cs indexes ≡ found indexes' nonce result
      → IsFirst (before ++ cs) nonce result
  feed_from [] before indexes indexes' nonce result holds e = absurd (nothing_found indexes e)
    where
      nothing_found : (t : Indexes) → ¬ (feed (collect k2) [] t ≡ found indexes' nonce result)
      nothing_found t f = cc (sym (feed_nothing t) ∙ f)
  feed_from ((n, i) ∷ cs) before indexes indexes' nonce result holds e =
      elim (Bool-cases (leb k2 (length (entry n indexes ++ (i ∷ []))))) [
        | inl enough ↦
            let both = sym (feed_enough indexes n i cs enough) ∙ e in
            let which : n ≡ nonce = cc both in
            let what : entry n indexes ++ (i ∷ []) ≡ result = cc both in
            let taken : result ≡ indexes_of nonce (before ++ ((n, i) ∷ [])) =
              sym what
              ∙ completed indexes before n i holds
              ∙ ap (λ (m : ℕ). indexes_of m (before ++ ((n, i) ∷ []))) which in
            (
              before ++ ((n, i) ∷ []),
              cs,
              sym (append_assoc before ((n, i) ∷ []) cs),
              taken,
              sym (ap length what) ∙ complete indexes before n i holds enough,
            )
        | inr few ↦
            let ih =
              feed_from cs (before ++ ((n, i) ∷ [])) _ indexes' nonce result
                (step_going indexes before n i holds few)
                (sym (feed_more indexes n i cs few) ∙ e) in
            rw (← append_assoc before ((n, i) ∷ []) cs) ih
      ]

  -- For `k2` of at least 1: if candidates handed to the collecting closure in turn, from an empty
  -- map on, end in a nonce with indices, then there are exactly `k2` indices, and they are those that
  -- the candidates up to some point have for the nonce, in order.
  pub feed-collect-IsFirst :
      (cs : List (ℕ × ℕ)) (indexes : Indexes) (nonce : ℕ) (result : List ℕ)
      → 0 < k2
      → feed (collect k2) cs [] ≡ found indexes nonce result
      → IsFirst cs nonce result
  feed-collect-IsFirst cs indexes nonce result some_needed e =
      feed_from cs [] [] indexes nonce result (λ n. (nothing_held n, some_needed)) e
    where
      nothing_held : (n : ℕ) → entry n [] ≡ []
      nothing_held n = entry-nil n
