-- ===== src/Prove/Search/Total.antt =====
-- The parallel search has a result, whether or not the flag is set.
use post_rs.Base.{ℕ, refl, inl, inr, Bool, Option, none, some, List, [], ◌∷◌}
use post_rs.Base.{Option-cases}
use post_rs.Prove.Collect.{Indexes, collect}
use post_rs.Prove.Search.{Searches, exhausted, passed, handed, completed}

module _ (k2 : ℕ) (stop : Bool) where
  abbrev HasResult : Indexes → List (List (ℕ × ℕ)) → Type 0
  HasResult indexes queues = (result : Option (ℕ × List ℕ)) × Searches k2 stop indexes queues result

  batch-HasResult :
      (queue : List (ℕ × ℕ)) (queues : List (List (ℕ × ℕ))) (indexes : Indexes)
      → ((indexes' : Indexes) → HasResult indexes' queues)
      → HasResult indexes (queue ∷ queues)
  batch-HasResult [] queues indexes h =
      let (result, run) = h indexes in (result, passed indexes [] queues _ result refl run)
  batch-HasResult ((nonce, index) ∷ queue) queues indexes h =
      elim (Option-cases (collect k2 indexes nonce index).1) [
        | inl e ↦
            let (result, run) = batch-HasResult queue queues (collect k2 indexes nonce index).0 h in
            (result, handed indexes [] queues _ queue nonce index result refl e run)
        | inr (vec, e) ↦
            (some (nonce, vec), completed indexes [] queues _ queue nonce index vec refl e)
      ]

  pub Searches_total : (indexes : Indexes) (queues : List (List (ℕ × ℕ))) → HasResult indexes queues
  Searches_total indexes [] = (none, exhausted indexes)
  Searches_total indexes (queue ∷ queues) =
      batch-HasResult queue queues indexes λ indexes'. Searches_total indexes' queues
