-- ===== src/Pow.antt =====
-- src/pow/mod.rs and src/pow/randomx.rs: the proof of work. The crate `randomx_rs` is an interface.
pub mod Laws
use post_rs.Base.{ℕ, ◌^◌, ◌<◌, ◌≡◌, Bool, true, false, Option, none, some, List, [], ◌∷◌, ◌++◌}
use post_rs.Base.{take, drop, replicate, if◌then◌else◌}
use post_rs.Base.Bytes.{to_le_bytes, lex_lt}
use post_rs.Base.Words.{Result, ok, err}

pub record RandomX : Type 1 where
  pub Flags : Type 0
  pub Cache : Type 0
  pub Dataset : Type 0
  pub Vm : Type 0
  pub RandomXError : Type 0
  pub contains_full_mem : Flags → Bool
  pub new_cache : Flags → List ℕ → Result RandomXError Cache
  pub new_dataset : Flags → Cache → ℕ → Result RandomXError Dataset
  pub new_vm : Flags → Option Cache → Option Dataset → Result RandomXError Vm
  pub calculate_hash : Vm → List ℕ → Result RandomXError (List ℕ)

pub data PowError (E : Type 0) : Type 0 where
  pow_not_found : PowError E
  invalid_pow : PowError E
  internal : E → PowError E

-- b"spacemesh-randomx-cache-key"
abbrev pub randomx_cache_key : List ℕ
randomx_cache_key =
    115 ∷ 112 ∷ 97 ∷ 99 ∷ 101 ∷ 109 ∷ 101 ∷ 115 ∷ 104 ∷ 45 ∷ 114 ∷ 97 ∷ 110 ∷ 100 ∷ 111 ∷ 109 ∷ 120
    ∷ 45 ∷ 99 ∷ 97 ∷ 99 ∷ 104 ∷ 101 ∷ 45 ∷ 107 ∷ 101 ∷ 121 ∷ []

module _ (randomx : RandomX) where
  open randomx use {
    Flags, Cache, Dataset, Vm, RandomXError, contains_full_mem, new_cache, new_dataset, new_vm,
    calculate_hash,
  }

  -- The VM of each thread is made when it is first needed, from these fields.
  pub record PoW : Type 0 where
    pub cache : Option Cache
    pub dataset : Option Dataset
    pub flags : Flags

  pub new_pow : Flags → Result (PowError RandomXError) PoW
  new_pow flags = elim (new_cache flags randomx_cache_key) [
    | err e ↦ err (internal e)
    | ok cache ↦
        if contains_full_mem flags
        then elim (new_dataset flags cache 0) [
          | err e ↦ err (internal e)
          | ok dataset ↦ ok (record { cache = none; dataset = some dataset; flags = flags })
        ]
        else ok (record { cache = some cache; dataset = none; flags = flags })
  ]

  pub get_vm : PoW → Result RandomXError Vm
  get_vm pow = new_vm pow.flags pow.cache pow.dataset

  -- The input before a nonce is written over its first seven bytes.
  pub pow_template : ℕ → List ℕ → List ℕ → List ℕ
  pow_template nonce_group challenge miner_id =
      replicate 7 0 ++ ((nonce_group ∷ []) ++ (challenge ++ miner_id))

  -- `pow_input[0..7].copy_from_slice(&pow_nonce.to_le_bytes()[0..7])`
  pub write_nonce : List ℕ → ℕ → List ℕ
  write_nonce pow_input pow_nonce = take 7 (to_le_bytes 8 pow_nonce) ++ drop 7 pow_input

  -- One attempt of `prove`: the hash, unless there is no VM or the hash fails.
  pub attempt : PoW → ℕ → List ℕ → List ℕ → ℕ → Option (List ℕ)
  attempt pow nonce_group challenge miner_id pow_nonce = elim (get_vm pow) [
    | err e ↦ none
    | ok vm ↦
        elim (calculate_hash vm
          (write_nonce (pow_template nonce_group challenge miner_id) pow_nonce)) [
            | err e ↦ none
            | ok hash ↦ some hash
          ]
  ]

  pub is_solution : PoW → ℕ → List ℕ → List ℕ → List ℕ → ℕ → Bool
  is_solution pow nonce_group challenge difficulty miner_id pow_nonce =
      elim (attempt pow nonce_group challenge miner_id pow_nonce) [
        | none ↦ false
        | some hash ↦ lex_lt hash difficulty
      ]

  -- `prove` searches in parallel and returns any solution below 2 ^ 56 (`find_any`).
  pub data Proves (pow : PoW) (nonce_group : ℕ) (challenge difficulty miner_id : List ℕ)
      (result : Result (PowError RandomXError) ℕ) : Type 0 where
    found :
        (pow_nonce : ℕ)
        → pow_nonce < 2 ^ 56
        → is_solution pow nonce_group challenge difficulty miner_id pow_nonce ≡ true
        → result ≡ ok pow_nonce
        → Proves pow nonce_group challenge difficulty miner_id result
    not_found :
        ((pow_nonce : ℕ)
          → pow_nonce < 2 ^ 56
          → is_solution pow nonce_group challenge difficulty miner_id pow_nonce ≡ false)
        → result ≡ err pow_not_found
        → Proves pow nonce_group challenge difficulty miner_id result

  pub verify_input : ℕ → ℕ → List ℕ → List ℕ → List ℕ
  verify_input pow_nonce nonce_group challenge miner_id =
      take 7 (to_le_bytes 8 pow_nonce) ++ ((nonce_group ∷ []) ++ (challenge ++ miner_id))

  pub verify : PoW → ℕ → ℕ → List ℕ → List ℕ → List ℕ → Result (PowError RandomXError) (Unit {0})
  verify pow pow_nonce nonce_group challenge difficulty miner_id = elim (get_vm pow) [
    | err e ↦ err (internal e)
    | ok vm ↦ elim (calculate_hash vm (verify_input pow_nonce nonce_group challenge miner_id)) [
      | err e ↦ err (internal e)
      | ok hash ↦ if lex_lt hash difficulty then ok tt else err invalid_pow
    ]
  ]
