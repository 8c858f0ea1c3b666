-- ===== src/Pow/Laws.antt =====
-- The prover and the verifier of the proof of work agree.
use post_rs.Base.{ℕ, ◌+◌, ◌*◌, ◌^◌, ◌<◌, ◌≡◌, ◌↔◌, refl, ap, arith, true, List, [], ◌∷◌, ◌++◌}
use post_rs.Base.{take}
use post_rs.Base.Bytes.{to_le_bytes}
use post_rs.Base.Words.{ok}
use post_rs.Pow.{
  RandomX, PoW, attempt, is_solution, Proves, found, not_found, verify_input, verify, write_nonce,
  pow_template,
}

seven_bytes : (n k : ℕ) → take 7 (to_le_bytes 8 (n + 2 ^ 56 * k)) ≡ take 7 (to_le_bytes 8 n)
seven_bytes n k = ground arith

module _ (randomx : RandomX) where
  verify_input_top_byte :
      (pow_nonce k nonce_group : ℕ) (challenge miner_id : List ℕ)
      → verify_input randomx (pow_nonce + 2 ^ 56 * k) nonce_group challenge miner_id
        ≡ verify_input randomx pow_nonce nonce_group challenge miner_id
  unfolding verify_input
  verify_input_top_byte pow_nonce k nonce_group challenge miner_id =
      ap (λ t. t ++ ((nonce_group ∷ []) ++ (challenge ++ miner_id))) (seven_bytes pow_nonce k)

  -- The top byte of the nonce is no part of the hashed input: nonces that differ in it alone are
  -- verified alike, whatever the answer.
  pub verify_top_byte :
      (pow : PoW randomx) (pow_nonce k nonce_group : ℕ) (challenge difficulty miner_id : List ℕ)
      → verify randomx pow (pow_nonce + 2 ^ 56 * k) nonce_group challenge difficulty miner_id
        ≡ verify randomx pow pow_nonce nonce_group challenge difficulty miner_id
  unfolding verify
  verify_top_byte pow pow_nonce k nonce_group challenge difficulty miner_id =
      ground (arith, verify_input_top_byte pow_nonce k nonce_group challenge miner_id)

  verify_iff :
      (pow : PoW randomx) (nonce_group pow_nonce : ℕ) (challenge difficulty miner_id : List ℕ)
      → (verify randomx pow pow_nonce nonce_group challenge difficulty miner_id ≡ ok tt)
        ↔ (is_solution randomx pow nonce_group challenge difficulty miner_id pow_nonce ≡ true)
  unfolding verify verify_input is_solution attempt write_nonce pow_template
  verify_iff pow nonce_group pow_nonce challenge difficulty miner_id = ground arith

  sound :
      (pow : PoW randomx) (nonce_group pow_nonce : ℕ) (challenge difficulty miner_id : List ℕ)
      → Proves randomx pow nonce_group challenge difficulty miner_id (ok pow_nonce)
      → (pow_nonce < 2 ^ 56)
        × (verify randomx pow pow_nonce nonce_group challenge difficulty miner_id ≡ ok tt)
  sound pow nonce_group pow_nonce challenge difficulty miner_id (found n lt solves e) =
      let same : n ≡ pow_nonce = cc in
      rw (← same) (lt, (verify_iff pow nonce_group n challenge difficulty miner_id).1 solves)
  sound pow nonce_group pow_nonce challenge difficulty miner_id (not_found none_solves e) =
      absurd (cc)

  -- `prove` may return a nonce exactly when it is below 2 ^ 56 and `verify` accepts it, with the
  -- same arguments.
  pub Proves-verify_iff :
      (pow : PoW randomx) (nonce_group pow_nonce : ℕ) (challenge difficulty miner_id : List ℕ)
      → Proves randomx pow nonce_group challenge difficulty miner_id (ok pow_nonce) ↔ (
          (pow_nonce < 2 ^ 56)
          × (verify randomx pow pow_nonce nonce_group challenge difficulty miner_id ≡ ok tt))
  Proves-verify_iff pow nonce_group pow_nonce challenge difficulty miner_id = (
    λ p. sound pow nonce_group pow_nonce challenge difficulty miner_id p,
    λ (lt, e).
        found pow_nonce lt
          ((verify_iff pow nonce_group pow_nonce challenge difficulty miner_id).0 e) refl,
  )
