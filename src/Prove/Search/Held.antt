-- ===== src/Prove/Search/Held.antt =====
-- What the parallel search collects comes from the candidates of its batches.
use post_rs.Base.{
  ℕ, ◌+◌, ◌<◌, ◌≤◌, ◌≡◌, ◌∙◌, sym, ap, arith, inl, inr, Bool, Option, none, some, List, [], ◌∷◌,
  ◌++◌,
}
use post_rs.Base.{
  length, leb, ◌==◌, Bool-cases, length-append, All, All-append, All-append_left, All-append_right,
}
use mathlib.Core.Path.{subst}
use post_rs.Prove.Collect.{Indexes, entry, set_entry, collect}
use post_rs.Prove.Collect.Found.{entry-set_entry}
use post_rs.Prove.Search.{Searches, exhausted, stopped, passed, handed, completed, overtaken}

abbrev pub pushed : Indexes → ℕ → ℕ → List ℕ
pushed indexes nonce index = entry nonce indexes ++ (index ∷ [])

collect_few :
    (k2 : ℕ) (indexes : Indexes) (nonce index : ℕ)
    → (collect k2 indexes nonce index).1 ≡ none
    → (length (pushed indexes nonce index) < k2)
      × ((collect k2 indexes nonce index).0 ≡ set_entry nonce (pushed indexes nonce index) indexes)
unfolding collect
collect_few k2 indexes nonce index e =
    elim (Bool-cases (leb k2 (length (pushed indexes nonce index)))) [
      | inl enough ↦ absurd (ground (arith, enough, e))
      | inr few ↦ (ground (arith, few), ground (arith, few))
    ]

collect_enough :
    (k2 : ℕ) (indexes : Indexes) (nonce index : ℕ) (vec : List ℕ)
    → (collect k2 indexes nonce index).1 ≡ some vec
    → (k2 ≤ length vec)
      × (vec ≡ pushed indexes nonce index)
      × ((collect k2 indexes nonce index).0 ≡ set_entry nonce [] indexes)
unfolding collect
collect_enough k2 indexes nonce index vec e =
    elim (Bool-cases (leb k2 (length (pushed indexes nonce index)))) [
      | inl enough ↦
          let same : vec ≡ pushed indexes nonce index = ground (arith, enough, e) in
          (ground (arith, enough, ap length same), same, ground (arith, enough))
      | inr few ↦ absurd (ground (arith, few, e))
    ]

module _ (P : ℕ → ℕ → Type 0) (k2 : ℕ) where
  abbrev pub IsHeld : Indexes → Type 0
  IsHeld indexes =
      (nonce : ℕ) → All (P nonce) (entry nonce indexes) × (length (entry nonce indexes) < k2)

  abbrev pub IsFull : ℕ × List ℕ → Type 0
  IsFull (nonce, vec) = All (P nonce) vec × (length vec ≡ k2)

  abbrev pub IsFullOption : Option (ℕ × List ℕ) → Type 0
  IsFullOption none = Unit
  IsFullOption (some result) = IsFull result

  abbrev pub IsQueued : List (List (ℕ × ℕ)) → Type 0
  IsQueued queues = All (All (λ c. P c.0 c.1)) queues

  set_entry-IsHeld :
      (indexes : Indexes) (nonce : ℕ) (vec : List ℕ)
      → IsHeld indexes
      → All (P nonce) vec
      → length vec < k2
      → IsHeld (set_entry nonce vec indexes)
  set_entry-IsHeld indexes nonce vec held h few other =
      let e = entry-set_entry nonce other vec indexes in
      elim (Bool-cases (other == nonce)) [
        | inr apart ↦
            let same : entry other (set_entry nonce vec indexes) ≡ entry other indexes =
              ground (arith, e, apart) in
            (
              subst (All (P other)) (sym same) (held other).0,
              ground (arith, ap length same, (held other).1),
            )
        | inl equal ↦
            let here : nonce ≡ other = ground (arith, equal) in
            let same : entry other (set_entry nonce vec indexes) ≡ vec = ground (arith, e, equal) in
            (
              subst (λ n. All (P n) (entry other (set_entry nonce vec indexes))) here
                  (subst (All (P nonce)) (sym same) h),
              ground (arith, ap length same, few),
            )
      ]

  pushed-All :
      (indexes : Indexes) (nonce index : ℕ)
      → IsHeld indexes
      → P nonce index
      → All (P nonce) (pushed indexes nonce index)
  pushed-All indexes nonce index held h =
      All-append (P nonce) (entry nonce indexes) (index ∷ []) (held nonce).0 (h, tt)

  middle :
      (before after : List (List (ℕ × ℕ))) (queue : List (ℕ × ℕ)) (queues : List (List (ℕ × ℕ)))
      → queues ≡ before ++ (queue ∷ after)
      → IsQueued queues
      → IsQueued before × All (λ c. P c.0 c.1) queue × IsQueued after
  middle before after queue queues e h =
      let parts = subst IsQueued e h in
      let tail = All-append_right (All (λ c. P c.0 c.1)) before (queue ∷ after) parts in
      (All-append_left (All (λ c. P c.0 c.1)) before (queue ∷ after) parts, tail.0, tail.1)

  without :
      (before after : List (List (ℕ × ℕ)))
      → IsQueued before
      → IsQueued after
      → IsQueued (before ++ after)
  without before after hb ha = All-append (All (λ c. P c.0 c.1)) before after hb ha

  full :
      (indexes : Indexes) (nonce index : ℕ) (vec : List ℕ)
      → IsHeld indexes
      → P nonce index
      → (collect k2 indexes nonce index).1 ≡ some vec
      → IsFull (nonce, vec)
  full indexes nonce index vec held h e =
      let (enough, same, _) = collect_enough k2 indexes nonce index vec e in
      let count : length vec ≡ length (entry nonce indexes) + 1 =
        ap length same ∙ length-append (entry nonce indexes) (index ∷ []) in
      (
        subst (All (P nonce)) (sym same) (pushed-All indexes nonce index held h),
        omega (arith, count, enough, (held nonce).1),
      )

  -- The start of the search: nothing is held.
  pub nothing-IsHeld : 0 < k2 → IsHeld []
  unfolding entry
  nothing-IsHeld some_needed nonce = (tt, some_needed)

  pub Searches-IsFull :
      {stop : Bool} {indexes : Indexes} {queues : List (List (ℕ × ℕ))}
      {result : Option (ℕ × List ℕ)}
      → 0 < k2
      → IsHeld indexes
      → IsQueued queues
      → Searches k2 stop indexes queues result
      → IsFullOption result
  Searches-IsFull some_needed held h (exhausted indexes) = tt
  Searches-IsFull some_needed held h (stopped indexes queues set) = tt
  Searches-IsFull some_needed held h (passed indexes before after queues result e rest) =
      let (hb, _, ha) = middle before after [] queues e h in
      Searches-IsFull some_needed held (without before after hb ha) rest
  Searches-IsFull some_needed held h
        (handed indexes before after queues rest nonce index result e c next) =
      let (hb, hq, ha) = middle before after ((nonce, index) ∷ rest) queues e h in
      let (few, same) = collect_few k2 indexes nonce index c in
      Searches-IsFull some_needed
        (subst IsHeld (sym same) (
          set_entry-IsHeld indexes nonce (pushed indexes nonce index) held
            (pushed-All indexes nonce index held hq.0) few))
        (without before (rest ∷ after) hb (hq.1, ha)) next
  Searches-IsFull some_needed held h
        (completed indexes before after queues rest nonce index vec e c) =
      let (_, hq, _) = middle before after ((nonce, index) ∷ rest) queues e h in
      full indexes nonce index vec held hq.0 c
  Searches-IsFull some_needed held h
        (overtaken indexes before after queues rest nonce index vec result e c next) =
      let (hb, hq, ha) = middle before after ((nonce, index) ∷ rest) queues e h in
      let (_, _, same) = collect_enough k2 indexes nonce index vec c in
      Searches-IsFull some_needed
        (subst IsHeld (sym same) (set_entry-IsHeld indexes nonce [] held tt some_needed))
        (without before after hb ha) next
