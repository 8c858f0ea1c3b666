-- ===== src/Cipher.antt =====
-- src/cipher.rs: the AES ciphers of a group of nonces and of one nonce.
use post_rs.Base.{ℕ, List}
use post_rs.Base.{take}
use post_rs.Base.Bytes.{to_le_bytes}
use post_rs.Crates.{Blake3, Aes}

module _ (blake3 : Blake3) (aes128 : Aes) where
  open blake3 use {new as new_hasher, update, finalize}

  pub record AesCipher : Type 0 where
    pub aes : aes128.Key
    pub nonce_group : ℕ
    pub pow : ℕ

  unfoldable pub new_cipher : List ℕ → ℕ → ℕ → AesCipher
  new_cipher challenge nonce_group pow =
      let hasher = update new_hasher challenge in
      let hasher = update hasher (to_le_bytes 4 nonce_group) in
      let hasher = update hasher (to_le_bytes 8 pow) in
      record { aes = aes128.new (take 16 (finalize hasher)); nonce_group = nonce_group; pow = pow }

  unfoldable pub new_lazy : List ℕ → ℕ → ℕ → ℕ → AesCipher
  new_lazy challenge nonce nonce_group pow =
      let hasher = update new_hasher challenge in
      let hasher = update hasher (to_le_bytes 4 nonce_group) in
      let hasher = update hasher (to_le_bytes 8 pow) in
      let hasher = update hasher (to_le_bytes 4 nonce) in
      record { aes = aes128.new (take 16 (finalize hasher)); nonce_group = nonce_group; pow = pow }
