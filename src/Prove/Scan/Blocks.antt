-- ===== src/Prove/Scan/Blocks.antt =====
-- The cipher text of a chunk, block by block.
use post_rs.Base.{ℕ, zero, suc, ◌+◌, ◌*◌, ◌<◌, ◌≤◌, ◌≡◌, sym, ap, ◌∙◌, arith, List, [], ◌∷◌, ◌++◌}
use post_rs.Base.{
  length, take, drop, get_elem?, length-append, length-take, length-drop, take-append-drop,
  get_elem?-append_left, get_elem?-append_right, drop-drop,
}
use post_rs.Crates.{Aes, AesLaws}

module _ (aes128 : Aes) (laws : AesLaws aes128) (key : aes128.Key) where
  first_block :
      (buf : List ℕ)
      → 16 ≤ length buf
      → aes128.encrypt_padded key buf
        ≡ aes128.encrypt_block key (take 16 buf) ++ aes128.encrypt_padded key (drop 16 buf)
  first_block buf h =
      ap (aes128.encrypt_padded key) (sym (take-append-drop 16 buf))
      ∙ laws.encrypt_padded-append key (take 16 buf) (drop 16 buf)
          (omega (arith, length-take 16 buf))

  pub length-encrypt_padded :
      (n : ℕ) (buf : List ℕ) → length buf ≡ 16 * n → length (aes128.encrypt_padded key buf) ≡ 16 * n
  length-encrypt_padded zero [] h = ap length (laws.encrypt_padded-nil key)
  length-encrypt_padded zero (b ∷ buf) h = absurd (omega arith)
  length-encrypt_padded (suc n) buf h =
      ap length (first_block buf (omega arith))
      ∙ omega (
        arith,
        length-append (aes128.encrypt_block key (take 16 buf))
            (aes128.encrypt_padded key (drop 16 buf)),
        (laws.encrypt_block-IsBytes key (take 16 buf)).0,
        length-encrypt_padded n (drop 16 buf) (omega (arith, length-drop 16 buf)),
      )

  pub get_elem?-encrypt_padded :
      (n b j : ℕ) (buf : List ℕ)
      → length buf ≡ 16 * n
      → b < n
      → j < 16
      → get_elem? (aes128.encrypt_padded key buf) (16 * b + j)
        ≡ get_elem? (aes128.encrypt_block key (take 16 (drop (16 * b) buf))) j
  get_elem?-encrypt_padded zero b j buf h hb hj = absurd (omega arith)
  get_elem?-encrypt_padded (suc n) zero j buf h hb hj =
      let size = (laws.encrypt_block-IsBytes key (take 16 buf)).0 in
      let i : 16 * 0 + j ≡ j = omega arith in
      ap (get_elem? (aes128.encrypt_padded key buf)) i
      ∙ ap (λ t. get_elem? t j) (first_block buf (omega arith))
      ∙ get_elem?-append_left _ (aes128.encrypt_padded key (drop 16 buf)) j (omega (arith, size))
  get_elem?-encrypt_padded (suc n) (suc b) j buf h hb hj =
      let size = (laws.encrypt_block-IsBytes key (take 16 buf)).0 in
      ap (λ t. get_elem? t (16 * suc b + j)) (first_block buf (omega arith))
      ∙ get_elem?-append_right _ (aes128.encrypt_padded key (drop 16 buf)) (16 * suc b + j)
          (16 * b + j) (omega (arith, size))
      ∙ get_elem?-encrypt_padded n b j (drop 16 buf) (omega (arith, length-drop 16 buf))
          (omega arith) hj
      ∙ ap (λ t. get_elem? (aes128.encrypt_block key (take 16 t)) j)
          (drop-drop 16 (16 * b) (16 * suc b) buf (omega arith))
