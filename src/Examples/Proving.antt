-- ===== src/Examples/Proving.antt =====
-- The scan of a batch of two chunks, difficulties, nonces and the proof of work.
use post_rs.Base.{
  refl, ℕ, ◌+◌, ◌*◌, ◌^◌, ◌<◌, ◌≤◌, ◌≡◌, ◌↔◌, arith, List, [], ◌∷◌, some, none, false,
  if◌then◌else◌, ltb, true,
}
use post_rs.Base.{length, replicate}
use post_rs.Base.Bytes.{lex_lt, be_value}
use post_rs.Base.Words.{ok}
use post_rs.Difficulty.{proving_difficulty, scale_pow_difficulty}
use post_rs.Difficulty.Laws.{proving_difficulty_ok_iff, lex_lt-scale_pow_difficulty}
use post_rs.Prove.Nonces.{Range, calc_nonce_group, nonce_group_range}
use post_rs.Prove.Nonces.Laws.{nonce_group_range_iff}
use post_rs.Prove.Prover.{Prover}
use post_rs.Prove.Scan.{Consume, found, consumed, prove}
use post_rs.Prove.Collect.{entry, set_entry, collect}
use post_rs.Prove.Collect.Found.{IsFirst, feed-collect-IsFirst}
use post_rs.Prove.Scan.Feed.{feed, candidates, prove-feed}
use post_rs.Pow.{PoW, Proves, verify}
use post_rs.Pow.Laws.{verify_top_byte, Proves-verify_iff}
use post_rs.Examples.Crates.{blake3, aes, aes_laws, u256, u256_laws, randomx, replicate-IsBytes}

proving_difficulty_ok_iff_example : (proving_difficulty 26 1000 ≡ ok 479615345916448342) ↔ (
    (26 < 1000)
    × (479615345916448342 * 1000 ≤ 2 ^ 64 * 26)
    × (2 ^ 64 * 26 < (479615345916448342 + 1) * 1000))
proving_difficulty_ok_iff_example =
    proving_difficulty_ok_iff 26 1000 479615345916448342 (omega arith)

lex_lt-scale_pow_difficulty_example :
    (scaled : List ℕ) × (scale_pow_difficulty u256 (replicate 32 255) 2 ≡ some scaled)
    × ((lex_lt (replicate 32 1) scaled ≡ true)
        ↔ ((be_value (replicate 32 1) + 1) * 2 ≤ be_value (replicate 32 255)))
lex_lt-scale_pow_difficulty_example =
    lex_lt-scale_pow_difficulty u256 u256_laws (replicate 32 255) (replicate 32 1) 2
      (replicate-IsBytes 32 255 (omega arith)) (replicate-IsBytes 32 1 (omega arith)) (omega arith)

abbrev two_groups : Range
two_groups = record { start = 16; end = 48 }

nonce_group_range_iff_example :
    let groups = nonce_group_range two_groups 16 in
    ((groups.start ≤ 2) × (2 < groups.end))
    ↔ ((nonce : ℕ) × (16 ≤ nonce) × (nonce < 48) × (calc_nonce_group nonce 16 ≡ 2))
nonce_group_range_iff_example = nonce_group_range_iff two_groups 2 (omega arith) (omega arith)

abbrev prover : Prover blake3 aes
prover = record {
  ciphers = record { aes = []; nonce_group = 0; pow = 0 } ∷ [];
  lazy_ciphers = record { aes = 1 ∷ []; nonce_group = 0; pow = 0 } ∷ [];
  difficulty_msb = 2;
  difficulty_lsb = 1000;
}

-- A batch of two chunks.
abbrev batch : List ℕ
batch = replicate 256 1

-- It keeps what it is given, and wants three.
abbrev keep : Consume (List (ℕ × ℕ))
keep = λ kept nonce index.
    ((nonce, index) ∷ kept, if ltb (length kept) 2 then none else some (index ∷ []))

prove-feed_example :
    prove blake3 aes keep prover batch 0 [] ≡ feed keep (candidates blake3 aes prover batch 0) []
prove-feed_example = prove-feed blake3 aes prover keep aes_laws batch 0 [] (omega arith)

abbrev three_found : List (ℕ × ℕ)
three_found = (1, 5) ∷ (2, 6) ∷ (1, 7) ∷ []

collect_run : feed (collect 2) three_found [] ≡ found ((1, []) ∷ (2, 6 ∷ []) ∷ []) 1 (5 ∷ 7 ∷ [])
unfolding feed consumed collect entry set_entry
collect_run = refl

feed-collect-IsFirst_example : IsFirst 2 three_found 1 (5 ∷ 7 ∷ [])
feed-collect-IsFirst_example =
    feed-collect-IsFirst 2 three_found ((1, []) ∷ (2, 6 ∷ []) ∷ []) 1 (5 ∷ 7 ∷ []) (omega arith)
      collect_run

abbrev pow : PoW randomx
pow = record { cache = some []; dataset = none; flags = false }

verify_top_byte_example :
    verify randomx pow (7 + 2 ^ 56 * 3) 1 (replicate 8 0) (replicate 32 9) (replicate 32 2)
    ≡ verify randomx pow 7 1 (replicate 8 0) (replicate 32 9) (replicate 32 2)
verify_top_byte_example =
    verify_top_byte randomx pow 7 3 1 (replicate 8 0) (replicate 32 9) (replicate 32 2)

Proves-verify_iff_example :
    Proves randomx pow 1 (replicate 8 0) (replicate 32 9) (replicate 32 2) (ok 7) ↔ (
      (7 < 2 ^ 56)
      × (verify randomx pow 7 1 (replicate 8 0) (replicate 32 9) (replicate 32 2) ≡ ok tt))
Proves-verify_iff_example =
    Proves-verify_iff randomx pow 1 7 (replicate 8 0) (replicate 32 9) (replicate 32 2)
