-- ===== src/Crates.antt =====
-- The crates that src/ calls for cryptography, as interfaces: `blake3`, `aes`, `scrypt_jane` and
-- `randomx_rs`. Nothing is assumed of them here; what a theorem needs is a law among its hypotheses.
use post_rs.Base.{ℕ, ◌≡◌, List, [], ◌++◌, length}
use post_rs.Base.Bytes.{IsBytes}
use post_rs.Config.{ScryptFactors}

-- `blake3::Hasher` and its `OutputReader`.
pub record Blake3 : Type 1 where
  pub Hasher : Type 0
  pub Reader : Type 0
  pub new : Hasher
  pub update : Hasher → List ℕ → Hasher
  pub finalize : Hasher → List ℕ
  pub finalize_xof : Hasher → Reader
  pub fill : Reader → ℕ → List ℕ × Reader

-- `aes::Aes128`: a block, and a buffer of whole blocks under `NoPadding`.
pub record Aes : Type 1 where
  pub Key : Type 0
  pub new : List ℕ → Key
  pub encrypt_block : Key → List ℕ → List ℕ
  pub encrypt_padded : Key → List ℕ → List ℕ

-- A buffer of whole blocks is encrypted block by block, and a block has 16 bytes.
pub record AesLaws (aes : Aes) : Type 0 where
  pub encrypt_padded-nil : (key : aes.Key) → aes.encrypt_padded key [] ≡ []
  pub encrypt_padded-append :
      (key : aes.Key) (block rest : List ℕ)
      → length block ≡ 16
      → aes.encrypt_padded key (block ++ rest)
        ≡ aes.encrypt_block key block ++ aes.encrypt_padded key rest
  pub encrypt_block-IsBytes :
      (key : aes.Key) (block : List ℕ) → IsBytes 16 (aes.encrypt_block key block)

-- `scrypt_jane::scrypt::scrypt(data, salt, params, out)` with an output of the given length.
pub record Scrypt : Type 0 where
  pub scrypt : List ℕ → List ℕ → ScryptFactors → ℕ → List ℕ
