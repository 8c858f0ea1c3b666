-- ===== src/Prove/Nonces/Laws.antt =====
-- The arithmetic of nonces and of the split difficulty.
use post_rs.Base.{ℕ, ◌+◌, ◌*◌, ◌%◌, ◌^◌, ◌≤◌, ◌<◌, ◌≡◌, ◌↔◌, arith, ◌&&◌, ◌||◌, ltb, ◌==◌}
use post_rs.Base.Words.{IsU32, IsU64}
use post_rs.Prove.Nonces.{Range, calc_nonce, calc_nonce_group, nonce_group_range, split_difficulty}
use Prim.Native.Nat.{max}

-- A nonce and its group, offset and place in the output of AES determine one another: any offset
-- in the output of eight blocks that has the nonce's place gives the nonce back.
pub calc_nonce-calc_nonce_group :
    (nonce offset : ℕ)
    → IsU32 nonce
    → offset < 128
    → offset % 16 ≡ nonce % 16
    → calc_nonce (calc_nonce_group nonce 16) 16 offset ≡ nonce
unfolding calc_nonce calc_nonce_group
calc_nonce-calc_nonce_group nonce offset h small same = omega arith

pub calc_nonce_fields :
    (nonce_group offset : ℕ)
    → nonce_group < 256
    → offset < 128
    → (calc_nonce_group (calc_nonce nonce_group 16 offset) 16 ≡ nonce_group)
      × (calc_nonce nonce_group 16 offset % 16 ≡ offset % 16)
      × (calc_nonce nonce_group 16 offset < 4096)
unfolding calc_nonce calc_nonce_group
calc_nonce_fields nonce_group offset h small = omega arith

-- For a range of nonces that is not empty, the groups in its group range are exactly the groups
-- of its nonces.
pub nonce_group_range_iff :
    (nonces : Range) (nonce_group : ℕ)
    → nonces.start < nonces.end
    → nonces.end + 15 < 2 ^ 32
    → let groups = nonce_group_range nonces 16 in
      ((groups.start ≤ nonce_group) × (nonce_group < groups.end)) ↔ (
        (nonce : ℕ) × (nonces.start ≤ nonce)
        × (nonce < nonces.end)
        × (calc_nonce_group nonce 16 ≡ nonce_group))
unfolding nonce_group_range calc_nonce_group
nonce_group_range_iff nonces nonce_group some_nonce fits = (
  λ p. (max nonces.start (16 * nonce_group), omega arith, omega arith, omega arith),
  λ (nonce, lo, hi, e). omega arith,
)

-- The check of the top byte, and of the other 56 bits where the top bytes are equal, is the
-- comparison of the 64-bit number with the difficulty.
pub split_difficulty_lem :
    (difficulty msb lsb : ℕ)
    → IsU64 difficulty
    → msb < 256
    → lsb < 2 ^ 56
    → let (difficulty_msb, difficulty_lsb) = split_difficulty difficulty in
      (ltb msb difficulty_msb || ((msb == difficulty_msb) && ltb lsb difficulty_lsb))
      ≡ ltb (msb * 2 ^ 56 + lsb) difficulty
unfolding split_difficulty
split_difficulty_lem difficulty msb lsb h hm hl = ground arith
