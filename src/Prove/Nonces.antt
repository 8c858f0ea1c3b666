-- ===== src/Prove/Nonces.antt =====
-- src/prove.rs: nonces in groups of 16, one group to an AES cipher, and the split difficulty.
pub mod Laws
use post_rs.Base.{ℕ, ◌+◌, ◌-◌, ◌*◌, ◌/◌, ◌%◌, ◌^◌}
use post_rs.Base.Words.{u8, u32}
use Prim.Native.Nat.{max}

abbrev pub nonces_per_aes : ℕ
nonces_per_aes = 16

abbrev pub label_size : ℕ
label_size = 16

abbrev pub block_size : ℕ
block_size = 16

abbrev pub aes_batch : ℕ
aes_batch = 8

abbrev pub chunk_size : ℕ
chunk_size = block_size * aes_batch

unfoldable pub calc_nonce : ℕ → ℕ → ℕ → ℕ
calc_nonce nonce_group per_aes offset = u32 (u32 (nonce_group * per_aes) + u32 offset % per_aes)

unfoldable pub calc_nonce_group : ℕ → ℕ → ℕ
calc_nonce_group nonce per_aes = nonce / per_aes

-- A `Range<u32>`, or a `Range<u64>` of indices.
pub record Range : Type 0 where
  pub start : ℕ
  pub end : ℕ

unfoldable pub nonce_group_range : Range → ℕ → Range
nonce_group_range nonces per_aes =
    let start_group = nonces.start / per_aes in
    let end_group = max (u32 (start_group + 1)) (u32 (nonces.end + per_aes - 1) / per_aes) in
    record { start = start_group; end = end_group }

-- `((difficulty >> 56) as u8, difficulty & 0x00ff_ffff_ffff_ffff)`
unfoldable pub split_difficulty : ℕ → ℕ × ℕ
split_difficulty difficulty = (u8 (difficulty / 2 ^ 56), difficulty % 2 ^ 56)
