-- ===== src/Verification/Label.antt =====
-- The check of one label compares a 64-bit number with the difficulty.
use post_rs.Base.{
  ℕ, ◌+◌, ◌*◌, ◌%◌, ◌^◌, ◌<◌, ◌≡◌, ◌↔◌, arith, sym, ap, zero, suc, ◌∙◌, none, some, List, [], ◌∷◌,
  true,
}
use post_rs.Base.{take, get_elem?, All, get_elem?_total, ltb, ltb→lt, lt→ltb, ◌==◌, ◌&&◌, ◌||◌}
use post_rs.Base.Bytes.{IsByte, from_le_bytes}
use post_rs.Base.Words.{IsU64}
use post_rs.Crates.{AesLaws}
use post_rs.Prove.Nonces.{split_difficulty}
use post_rs.Prove.Nonces.Laws.{split_difficulty_lem}
use post_rs.Verification.{Env, Check, check_label, check_label_lsb, accepted}

All-get_elem? : (P : ℕ → Type 0) (xs : List ℕ) (i x : ℕ) → All P xs → get_elem? xs i ≡ some x → P x
All-get_elem? P [] i x h e = absurd (cc e)
All-get_elem? P (y ∷ xs) zero x h e = let same : y ≡ x = cc e in rw (← same) h.0
All-get_elem? P (y ∷ xs) (suc i) x h e = All-get_elem? P xs i x h.1 e

module _ (env : Env) where
  -- The top byte is the label's byte under the cipher of the group, at the nonce's place; the other
  -- 56 bits are the label's under the cipher of the nonce.
  pub label_number : Check env → List ℕ → ℕ
  label_number check label =
      elim (get_elem? (env.aes.encrypt_block check.cipher.aes label) check.output_index) [
        | none ↦ 0
        | some msb ↦
            msb * 2 ^ 56
            + from_le_bytes (take 8 (env.aes.encrypt_block check.lazy_cipher.aes label)) % 2 ^ 56
      ]

  pub check_label_test :
      {E : Type 0} (check : Check env) (index msb : ℕ) (label : List ℕ)
      → get_elem? (env.aes.encrypt_block check.cipher.aes label) check.output_index ≡ some msb
      → (check_label {E = E} env check index label ≡ accepted) ↔ (
          (ltb msb check.difficulty_msb
            || ((msb == check.difficulty_msb)
                && ltb
                    (from_le_bytes (take 8 (env.aes.encrypt_block check.lazy_cipher.aes label))
                      % 2 ^ 56)
                    check.difficulty_lsb))
          ≡ true)
  unfolding check_label check_label_lsb
  check_label_test check index msb label e = ground (arith, e)

  -- For a 64-bit difficulty in its two parts, and a place within the block, the check of a label
  -- passes exactly when the label's 64-bit number is below the difficulty.
  pub check_label_iff :
      {E : Type 0} (laws : AesLaws env.aes) (check : Check env) (index difficulty : ℕ)
      (label : List ℕ)
      → IsU64 difficulty
      → split_difficulty difficulty ≡ (check.difficulty_msb, check.difficulty_lsb)
      → check.output_index < 16
      → (check_label {E = E} env check index label ≡ accepted)
        ↔ (label_number check label < difficulty)
  unfolding label_number
  check_label_iff {E} laws check index difficulty label fits split place =
      let block = env.aes.encrypt_block check.cipher.aes label in
      let bytes = laws.encrypt_block-IsBytes check.cipher.aes label in
      let (msb, e) = get_elem?_total block check.output_index (omega (arith, bytes.0)) in
      let small : msb < 256 = All-get_elem? IsByte block check.output_index msb bytes.1 e in
      let lsb =
        from_le_bytes (take 8 (env.aes.encrypt_block check.lazy_cipher.aes label)) % 2 ^ 56 in
      let (to, from) = check_label_test {E = E} check index msb label e in
      let test : (ltb msb check.difficulty_msb
            || ((msb == check.difficulty_msb) && ltb lsb check.difficulty_lsb))
          ≡ ltb (msb * 2 ^ 56 + lsb) difficulty =
        ap (λ (p : ℕ × ℕ). ltb msb p.0 || ((msb == p.0) && ltb lsb p.1)) (sym split)
        ∙ split_difficulty_lem difficulty msb lsb fits small (omega arith) in
      rw (e, label_number) (λ p. ltb→lt _ _ (sym test ∙ to p), λ q. from (test ∙ lt→ltb _ _ q))
