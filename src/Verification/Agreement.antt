-- ===== src/Verification/Agreement.antt =====
-- The prover and the verifier test a label alike.
use post_rs.Base.{ℕ, ◌+◌, ◌*◌, ◌/◌, ◌%◌, ◌<◌, ◌≡◌, ◌↔◌, ◌∙◌, sym, ap, arith, true, some, List}
use post_rs.Base.{length, take, drop, get_elem?}
use post_rs.Crates.{AesLaws}
use post_rs.Cipher.{AesCipher}
use post_rs.Prove.Nonces.{calc_nonce}
use post_rs.Prove.Nonces.Laws.{calc_nonce_fields}
use post_rs.Prove.Prover.{Prover, lazy_cipher}
use post_rs.Prove.Scan.{lsb_of}
use post_rs.Prove.Scan.Blocks.{get_elem?-encrypt_padded}
use post_rs.Prove.Scan.Feed.{is_candidate}
use post_rs.Verification.{Env, Check, check_label, accepted}
use post_rs.Verification.Label.{check_label_test}

module _ (E : Type 0) (env : Env) (laws : AesLaws env.aes) (prover : Prover env.blake3 env.aes)
    (cipher lazy : AesCipher env.blake3 env.aes) where
  -- The verifier's check for a nonce with the prover's ciphers and difficulty.
  abbrev pub check_with : ℕ → Check env
  check_with nonce = record {
    cipher = cipher;
    lazy_cipher = lazy;
    difficulty_msb = prover.difficulty_msb;
    difficulty_lsb = prover.difficulty_lsb;
    output_index = nonce % 16;
  }

  -- In a chunk of eight labels, the byte of the cipher text at an offset makes the label under it a
  -- candidate for the nonce of that offset exactly when the verifier's check of the label for that
  -- nonce, with the same ciphers and difficulty, passes.
  pub check_label-is_candidate_iff :
      (chunk : List ℕ) (nonce_group offset index msb : ℕ)
      → length chunk ≡ 128
      → nonce_group < 256
      → offset < 128
      → get_elem? (env.aes.encrypt_padded cipher.aes chunk) offset ≡ some msb
      → lazy_cipher env.blake3 env.aes prover (calc_nonce nonce_group 16 offset) ≡ some lazy
      → (check_label {E = E} env
            (check_with (calc_nonce nonce_group 16 offset))
            index
            (take 16 (drop (offset / 16 * 16) chunk))
          ≡ accepted)
        ↔ (is_candidate env.blake3 env.aes prover chunk nonce_group offset msb ≡ true)
  unfolding is_candidate lsb_of
  check_label-is_candidate_iff chunk nonce_group offset index msb size small inside byte held =
      let (group, place, below) = calc_nonce_fields nonce_group offset small inside in
      let at : offset ≡ 16 * (offset / 16) + offset % 16 = omega arith in
      let block : 16 * (offset / 16) ≡ offset / 16 * 16 = omega arith in
      let seen : get_elem?
            (env.aes.encrypt_block cipher.aes (take 16 (drop (offset / 16 * 16) chunk)))
            (calc_nonce nonce_group 16 offset % 16)
          ≡ some msb =
        ap (get_elem? (env.aes.encrypt_block cipher.aes (take 16 (drop (offset / 16 * 16) chunk))))
          place
        ∙ ap
            (λ (k : ℕ).
              get_elem? (env.aes.encrypt_block cipher.aes (take 16 (drop k chunk))) (offset % 16))
            (sym block)
        ∙ sym (
            get_elem?-encrypt_padded env.aes laws cipher.aes 8 (offset / 16) (offset % 16) chunk
              (omega arith) (omega arith) (omega arith))
        ∙ ap (get_elem? (env.aes.encrypt_padded cipher.aes chunk)) (sym at)
        ∙ byte in
      let test =
        check_label_test env {E = E} (check_with (calc_nonce nonce_group 16 offset)) index msb
          (take 16 (drop (offset / 16 * 16) chunk)) seen in
      rw (held, is_candidate) test
