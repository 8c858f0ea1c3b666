-- ===== src/Prove/Collect.antt =====
-- src/prove.rs: the closure of `generate_proof` that collects indices by nonce, behind its lock.
pub mod Found
use post_rs.Base.{ℕ, Option, none, some, List, [], ◌∷◌, ◌++◌}
use post_rs.Base.{length, leb, ◌==◌, if◌then◌else◌}
use post_rs.Prove.Scan.{Consume}

-- `HashMap<u32, Vec<u64>>`
abbrev pub Indexes : Type 0
Indexes = List (ℕ × List ℕ)

-- `indexes.entry(nonce).or_default()`
unfoldable pub entry : ℕ → Indexes → List ℕ
entry nonce [] = []
entry nonce ((other, vec) ∷ indexes) = if nonce == other then vec else entry nonce indexes

unfoldable pub set_entry : ℕ → List ℕ → Indexes → Indexes
set_entry nonce vec [] = (nonce, vec) ∷ []
set_entry nonce vec ((other, old) ∷ indexes) =
    let rest = set_entry nonce vec indexes in
    if nonce == other then (other, vec) ∷ indexes else (other, old) ∷ rest

-- The closure: the vector is taken out once it holds `k2` indices.
unfoldable pub collect : ℕ → Consume Indexes
collect k2 = λ indexes nonce index.
    let vec = entry nonce indexes ++ (index ∷ []) in
    if leb k2 (length vec)
    then (set_entry nonce [] indexes, some vec)
    else (set_entry nonce vec indexes, none)
