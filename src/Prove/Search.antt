-- ===== src/Prove/Search.antt =====
-- src/prove.rs: the parallel search of `generate_proof` through the batches. The threads hand the
-- candidates of their batches to the collecting closure one at a time, behind its lock, in any
-- interleaving, and any result that was found may be the one that is returned.
pub mod Held
pub mod Total
use post_rs.Base.{ℕ, ◌≡◌, Bool, true, Option, none, some, List, [], ◌∷◌, ◌++◌}
use post_rs.Prove.Collect.{Indexes, collect}

-- The queues are the candidates that are left in each batch. `stop` says whether the flag is ever set.
pub data Searches (k2 : ℕ) (stop : Bool)
    : Indexes → List (List (ℕ × ℕ)) → Option (ℕ × List ℕ) → Type 0 where
  exhausted : (indexes : Indexes) → Searches k2 stop indexes [] none
  -- `take_any_while`: the batches that are left are not taken.
  stopped :
      (indexes : Indexes) (queues : List (List (ℕ × ℕ)))
      → stop ≡ true
      → Searches k2 stop indexes queues none
  -- A batch is done.
  passed :
      (indexes : Indexes) (before after queues : List (List (ℕ × ℕ))) (result : Option (ℕ × List ℕ))
      → queues ≡ before ++ ([] ∷ after)
      → Searches k2 stop indexes (before ++ after) result
      → Searches k2 stop indexes queues result
  handed :
      (indexes : Indexes) (before after queues : List (List (ℕ × ℕ))) (rest : List (ℕ × ℕ))
      (nonce index : ℕ) (result : Option (ℕ × List ℕ))
      → queues ≡ before ++ (((nonce, index) ∷ rest) ∷ after)
      → (collect k2 indexes nonce index).1 ≡ none
      → Searches k2 stop (collect k2 indexes nonce index).0 (before ++ (rest ∷ after)) result
      → Searches k2 stop indexes queues result
  completed :
      (indexes : Indexes) (before after queues : List (List (ℕ × ℕ))) (rest : List (ℕ × ℕ))
      (nonce index : ℕ) (vec : List ℕ)
      → queues ≡ before ++ (((nonce, index) ∷ rest) ∷ after)
      → (collect k2 indexes nonce index).1 ≡ some vec
      → Searches k2 stop indexes queues (some (nonce, vec))
  -- Another thread finds indices too, and its result is returned.
  overtaken :
      (indexes : Indexes) (before after queues : List (List (ℕ × ℕ))) (rest : List (ℕ × ℕ))
      (nonce index : ℕ) (vec : List ℕ) (result : ℕ × List ℕ)
      → queues ≡ before ++ (((nonce, index) ∷ rest) ∷ after)
      → (collect k2 indexes nonce index).1 ≡ some vec
      → Searches k2 stop (collect k2 indexes nonce index).0 (before ++ after) (some result)
      → Searches k2 stop indexes queues (some result)
