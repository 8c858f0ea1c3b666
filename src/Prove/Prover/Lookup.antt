-- ===== src/Prove/Prover/Lookup.antt =====
-- Which cipher a nonce is looked up to.
use post_rs.Base.{ℕ, ◌%◌, ◌<◌, ◌≡◌, some}
use post_rs.Base.{length, get_elem?_total}
use post_rs.Crates.{Blake3, Aes}
use post_rs.Cipher.{AesCipher}
use post_rs.Prove.Prover.{Prover, lazy_cipher}
use native.Mathlib.Nat.{mod-lt}

module _ (blake3 : Blake3) (aes128 : Aes) where
  pub lazy_cipher_total :
      (prover : Prover blake3 aes128) (nonce : ℕ)
      → 0 < length prover.lazy_ciphers
      → (lazy : AesCipher blake3 aes128) × (lazy_cipher blake3 aes128 prover nonce ≡ some lazy)
  unfolding lazy_cipher
  lazy_cipher_total prover nonce h =
      get_elem?_total prover.lazy_ciphers (nonce % length prover.lazy_ciphers) (mod-lt nonce h)
