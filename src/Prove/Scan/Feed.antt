-- ===== src/Prove/Scan/Feed.antt =====
-- The scan of a batch hands a list of candidates to `consume`, in order, until one gives a proof.
use post_rs.Base.{
  ℕ, ◌+◌, ◌*◌, ◌/◌, ◌<◌, ◌≡◌, refl, sym, ap, ◌∙◌, arith, Bool, false, none, some, List, [], ◌∷◌,
  ◌++◌,
}
use post_rs.Base.{
  length, take, drop, chunks_exact, All, All-chunks_exact, ltb, ◌==◌, ◌&&◌, ◌||◌, if◌then◌else◌,
}
use post_rs.Base.Words.{u32, u64}
use post_rs.Crates.{Blake3, Aes, AesLaws}
use post_rs.Prove.Scan.Blocks.{length-encrypt_padded}
use post_rs.Cipher.{AesCipher}
use post_rs.Prove.Nonces.{nonces_per_aes, label_size, aes_batch, chunk_size, calc_nonce}
use post_rs.Prove.Prover.{Prover, lazy_cipher}
use post_rs.Base.{◌^◌}
use post_rs.Prove.Prover.Lookup.{lazy_cipher_total}
use mathlib.Core.Path.{fun_ext, ap₂}
use post_rs.Prove.Scan.{
  Scan, going, found, panic, and_then, Consume, consumed, lsb_of, check_lsb, check_byte, scan_bytes,
  scan_ciphers, scan_chunks, prove,
}

unfoldable pub feed : {S : Type 0} → Consume S → List (ℕ × ℕ) → S → Scan S
feed consume [] s = going s
feed consume ((nonce, index) ∷ cs) s = and_then (consumed consume nonce index s) (feed consume cs)

and_then_assoc :
    {S : Type 0} (r : Scan S) (f g : S → Scan S)
    → and_then r (λ s. and_then (f s) g) ≡ and_then (and_then r f) g
and_then_assoc (going s) f g = refl
and_then_assoc (found s n l) f g = refl
and_then_assoc panic f g = refl

feed-append :
    {S : Type 0} (consume : Consume S) (xs ys : List (ℕ × ℕ)) (s : S)
    → feed consume (xs ++ ys) s ≡ and_then (feed consume xs s) (feed consume ys)
unfolding feed
feed-append consume [] ys s = refl
feed-append consume ((nonce, index) ∷ xs) ys s =
    ap (and_then (consumed consume nonce index s)) (fun_ext (feed-append consume xs ys))
    ∙ and_then_assoc (consumed consume nonce index s) (feed consume xs) (feed consume ys)

and_then_nil : {S : Type 0} (r : Scan S) → and_then r (λ s. going s) ≡ r
and_then_nil (going s) = refl
and_then_nil (found s n l) = refl
and_then_nil panic = refl

module _ (blake3 : Blake3) (aes128 : Aes) (prover : Prover blake3 aes128) where
  -- Whether the byte at an offset makes the label under it a candidate.
  unfoldable pub is_candidate : List ℕ → ℕ → ℕ → ℕ → Bool
  is_candidate chunk nonce_group offset msb =
      elim (lazy_cipher blake3 aes128 prover (calc_nonce nonce_group nonces_per_aes offset)) [
        | none ↦ false
        | some lazy ↦
            ltb msb prover.difficulty_msb
            || ((msb == prover.difficulty_msb)
                && ltb
                    (lsb_of aes128 lazy.aes
                      (take label_size (drop (offset / nonces_per_aes * label_size) chunk)))
                    prover.difficulty_lsb)
      ]

  unfoldable pub candidates_of_bytes : List ℕ → ℕ → ℕ → ℕ → List ℕ → List (ℕ × ℕ)
  candidates_of_bytes chunk nonce_group index offset [] = []
  candidates_of_bytes chunk nonce_group index offset (msb ∷ u8s) =
      (if is_candidate chunk nonce_group offset msb
        then (calc_nonce nonce_group nonces_per_aes offset, u64 (index + offset / nonces_per_aes))
          ∷ []
        else [])
      ++ candidates_of_bytes chunk nonce_group index (offset + 1) u8s

  unfoldable pub candidates_of_chunk : List ℕ → ℕ → List (AesCipher blake3 aes128) → List (ℕ × ℕ)
  candidates_of_chunk chunk index [] = []
  candidates_of_chunk chunk index (cipher ∷ ciphers) =
      candidates_of_bytes chunk cipher.nonce_group index 0 (aes128.encrypt_padded cipher.aes chunk)
      ++ candidates_of_chunk chunk index ciphers

  unfoldable pub candidates_of_chunks : ℕ → List (List ℕ) → List (ℕ × ℕ)
  candidates_of_chunks index [] = []
  candidates_of_chunks index (chunk ∷ chunks) =
      candidates_of_chunk chunk index prover.ciphers
      ++ candidates_of_chunks (u64 (index + aes_batch)) chunks

  unfoldable pub candidates : List ℕ → ℕ → List (ℕ × ℕ)
  candidates batch index = candidates_of_chunks index (chunks_exact chunk_size batch)

  module _ {S : Type 0} (consume : Consume S) where
    one_candidate :
        (nonce index : ℕ) (s : S)
        → feed consume ((nonce, index) ∷ []) s ≡ consumed consume nonce index s
    unfolding feed
    one_candidate nonce index s = and_then_nil (consumed consume nonce index s)

    feed_none : (s : S) → feed consume [] s ≡ going s
    unfolding feed
    feed_none s = refl

    check_byte-feed :
        (chunk : List ℕ) (nonce_group index offset msb : ℕ) (s : S)
        → 0 < length prover.lazy_ciphers
        → offset < 2 ^ 32
        → check_byte blake3 aes128 consume prover chunk nonce_group index offset msb s
          ≡ feed consume
              (if is_candidate chunk nonce_group offset msb
                then (
                  calc_nonce nonce_group nonces_per_aes offset,
                  u64 (index + offset / nonces_per_aes),
                )
                  ∷ []
                else [])
              s
    unfolding check_byte check_lsb is_candidate
    check_byte-feed chunk nonce_group index offset msb s some_lazy narrow =
        let nonce : ℕ = calc_nonce nonce_group 16 offset in
        let (lazy, e) = lazy_cipher_total blake3 aes128 prover nonce some_lazy in
        let same : u32 offset ≡ offset = omega arith in
        ground (
          arith,
          e,
          ap (λ (t : ℕ). u64 (index + t / 16)) same,
          one_candidate nonce (u64 (index + offset / 16)) s,
          feed_none s,
        )

    scan_bytes-feed :
        (chunk : List ℕ) (nonce_group index offset : ℕ) (u8s : List ℕ) (s : S)
        → 0 < length prover.lazy_ciphers
        → offset + length u8s < 2 ^ 32
        → scan_bytes blake3 aes128 consume prover chunk nonce_group index offset u8s s
          ≡ feed consume (candidates_of_bytes chunk nonce_group index offset u8s) s
    unfolding scan_bytes candidates_of_bytes
    scan_bytes-feed chunk nonce_group index offset [] s some_lazy narrow = sym (feed_none s)
    scan_bytes-feed chunk nonce_group index offset (msb ∷ u8s) s some_lazy narrow =
        ap₂ and_then (check_byte-feed chunk nonce_group index offset msb s some_lazy (omega arith))
          (fun_ext
            λ t. scan_bytes-feed chunk nonce_group index (offset + 1) u8s t some_lazy (omega arith))
        ∙ sym
            (feed-append consume _ (candidates_of_bytes chunk nonce_group index (offset + 1) u8s) s)

    module _ (laws : AesLaws aes128) where
      scan_ciphers-feed :
          (chunk : List ℕ) (index : ℕ) (ciphers : List (AesCipher blake3 aes128)) (s : S)
          → 0 < length prover.lazy_ciphers
          → length chunk ≡ 128
          → scan_ciphers blake3 aes128 consume prover chunk index ciphers s
            ≡ feed consume (candidates_of_chunk chunk index ciphers) s
      unfolding scan_ciphers candidates_of_chunk
      scan_ciphers-feed chunk index [] s some_lazy h = sym (feed_none s)
      scan_ciphers-feed chunk index (cipher ∷ ciphers) s some_lazy h =
          ap₂ and_then
            (scan_bytes-feed chunk cipher.nonce_group index 0 _ s some_lazy
              (omega (arith, length-encrypt_padded aes128 laws cipher.aes 8 chunk (omega arith))))
            (fun_ext λ t. scan_ciphers-feed chunk index ciphers t some_lazy h)
          ∙ sym (feed-append consume _ (candidates_of_chunk chunk index ciphers) s)

      scan_chunks-feed :
          (index : ℕ) (chunks : List (List ℕ)) (s : S)
          → 0 < length prover.lazy_ciphers
          → All (λ chunk. length chunk ≡ 128) chunks
          → scan_chunks blake3 aes128 consume prover index chunks s
            ≡ feed consume (candidates_of_chunks index chunks) s
      unfolding scan_chunks candidates_of_chunks
      scan_chunks-feed index [] s some_lazy h = sym (feed_none s)
      scan_chunks-feed index (chunk ∷ chunks) s some_lazy (hc, h) =
          ap₂ and_then (scan_ciphers-feed chunk index prover.ciphers s some_lazy hc)
            (fun_ext λ t. scan_chunks-feed (u64 (index + 8)) chunks t some_lazy h)
          ∙ sym (feed-append consume _ (candidates_of_chunks (u64 (index + 8)) chunks) s)

      -- For a prover with lazy ciphers, and any `consume`, the scan of a batch does not panic by
      -- itself: it hands the candidates of the batch to `consume` in order, and stops at the first
      -- for which `consume` returns indices.
      pub prove-feed :
          (batch : List ℕ) (index : ℕ) (s : S)
          → 0 < length prover.lazy_ciphers
          → prove blake3 aes128 consume prover batch index s
            ≡ feed consume (candidates batch index) s
      unfolding prove candidates
      prove-feed batch index s some_lazy =
          scan_chunks-feed index (chunks_exact 128 batch) s some_lazy
            (All-chunks_exact 128 batch (omega arith))
