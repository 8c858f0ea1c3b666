-- ===== src/Prove/Scan.antt =====
-- src/prove.rs: `Prover8_56::prove`, which looks for labels below the difficulty in a batch, and
-- hands each with its nonce and index to `consume`.
pub mod Blocks
pub mod Feed
use post_rs.Base.{ℕ, zero, suc, ◌+◌, ◌*◌, ◌/◌, ◌%◌, ◌^◌, Option, none, some, List, [], ◌∷◌, Bool}
use post_rs.Base.{take, drop, chunks_exact, ltb, leb, ◌==◌, if◌then◌else◌}
use post_rs.Base.Bytes.{from_le_bytes}
use post_rs.Base.Words.{u32, u64}
use post_rs.Crates.{Blake3, Aes}
use post_rs.Cipher.{AesCipher}
use post_rs.Prove.Nonces.{nonces_per_aes, label_size, aes_batch, chunk_size, calc_nonce}
use post_rs.Prove.Prover.{Prover, lazy_cipher}

-- Where the scan stands: it goes on, or a proof was found, or it panicked.
pub data Scan (S : Type 0) : Type 0 where
  going : S → Scan S
  found : S → ℕ → List ℕ → Scan S
  panic : Scan S

abbrev pub and_then : {S : Type 0} → Scan S → (S → Scan S) → Scan S
and_then (going s) k = k s
and_then (found s nonce indexes) k = found s nonce indexes
and_then panic k = panic

-- `FnMut(u32, u64) -> Option<Vec<u64>>`
abbrev pub Consume : Type 0 → Type 0
Consume S = S → ℕ → ℕ → S × Option (List ℕ)

unfoldable pub consumed : {S : Type 0} → Consume S → ℕ → ℕ → S → Scan S
consumed consume nonce index s =
    let (s', result) = consume s nonce index in
    elim result [ none ↦ going s' | some indexes ↦ found s' nonce indexes ]

-- The low 56 bits of the first half of the label's block under the lazy cipher.
unfoldable pub lsb_of : (aes128 : Aes) → aes128.Key → List ℕ → ℕ
lsb_of aes128 key label = from_le_bytes (take 8 (aes128.encrypt_block key label)) % 2 ^ 56

module _ (blake3 : Blake3) (aes128 : Aes) {S : Type 0} (consume : Consume S)
    (prover : Prover blake3 aes128) where
  pub check_lsb : List ℕ → ℕ → ℕ → ℕ → S → Scan S
  check_lsb label nonce nonce_offset base_index s = elim (lazy_cipher blake3 aes128 prover nonce) [
    | none ↦ panic
    | some lazy ↦
        if ltb (lsb_of aes128 lazy.aes label) prover.difficulty_lsb
        then consumed consume nonce (u64 (base_index + nonce_offset / nonces_per_aes)) s
        else going s
  ]

  -- One byte of the chunk's cipher text, at `offset`.
  pub check_byte : List ℕ → ℕ → ℕ → ℕ → ℕ → S → Scan S
  check_byte chunk nonce_group index offset msb s =
      if leb msb prover.difficulty_msb
      then if msb == prover.difficulty_msb
        then check_lsb (take label_size (drop (offset / nonces_per_aes * label_size) chunk))
            (calc_nonce nonce_group nonces_per_aes offset) offset index s
        else consumed consume (calc_nonce nonce_group nonces_per_aes offset)
            (u64 (index + u32 offset / nonces_per_aes)) s
      else going s

  pub scan_bytes : List ℕ → ℕ → ℕ → ℕ → List ℕ → S → Scan S
  scan_bytes chunk nonce_group index offset [] s = going s
  scan_bytes chunk nonce_group index offset (msb ∷ u8s) s =
      and_then (check_byte chunk nonce_group index offset msb s)
        (scan_bytes chunk nonce_group index (offset + 1) u8s)

  pub scan_ciphers : List ℕ → ℕ → List (AesCipher blake3 aes128) → S → Scan S
  scan_ciphers chunk index [] s = going s
  scan_ciphers chunk index (cipher ∷ ciphers) s =
      and_then
        (scan_bytes chunk cipher.nonce_group index 0 (aes128.encrypt_padded cipher.aes chunk) s)
        (scan_ciphers chunk index ciphers)

  pub scan_chunks : ℕ → List (List ℕ) → S → Scan S
  scan_chunks index [] s = going s
  scan_chunks index (chunk ∷ chunks) s =
      and_then (scan_ciphers chunk index prover.ciphers s)
        (scan_chunks (u64 (index + aes_batch)) chunks)

  -- `Prover8_56::prove`
  pub prove : List ℕ → ℕ → S → Scan S
  prove batch index s = scan_chunks index (chunks_exact chunk_size batch) s
