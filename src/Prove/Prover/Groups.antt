-- ===== src/Prove/Prover/Groups.antt =====
-- Which ranges of nonces a prover is made for: a group is a byte, and groups are whole.
use post_rs.Base.{
  ℕ, zero, suc, ◌+◌, ◌-◌, ◌%◌, ◌^◌, ◌<◌, ◌≤◌, ◌≡◌, refl, arith, inl, inr, ◌⊎◌, true, some, List, [],
  ◌∷◌,
}
use post_rs.Base.{All, range_from, ltb, ◌==◌, ◌&&◌, Bool-cases}
use post_rs.Base.Words.{ok, Result-cases}
use post_rs.Crates.{Blake3, Aes}
use post_rs.Cipher.{AesCipher}
use post_rs.Prove.Nonces.{Range, nonce_group_range}
use post_rs.Prove.Prover.{
  ProvingParams, PowProver, Prover, group_cipher, group_ciphers, range_list, new_prover,
}

range_end : (start n : ℕ) → All (λ g. g < 256) (range_from start n) → (n ≡ 0) ⊎ (start + n ≤ 256)
range_end start zero h = inl refl
range_end start (suc n) h = elim (range_end (start + 1) n h.1) [
  | inl e ↦ inr (omega (arith, h.0, e))
  | inr below ↦ inr (omega (arith, below))
]

range_bound :
    (r : Range)
    → r.end < 2 ^ 32
    → (r.start % 16 == 0) ≡ true
    → (ltb r.start r.end && ((r.end - r.start) % 16 == 0)) ≡ true
    → let groups = nonce_group_range r 16 in
      All (λ g. g < 256) (range_from groups.start (groups.end - groups.start))
      → (r.start + 16 ≤ r.end) × (r.end ≤ 4096)
unfolding nonce_group_range
range_bound r fits whole count h =
    let some_nonces : (r.start < r.end) × ((r.end - r.start) % 16 ≡ 0) = ground (arith, count) in
    let whole' : r.start % 16 ≡ 0 = ground (arith, whole) in
    elim (range_end _ _ h) [
      | inl e ↦ absurd (omega (arith, e, some_nonces.0, some_nonces.1, fits))
      | inr below ↦ (omega (arith, some_nonces), omega (arith, below, some_nonces, whole', fits))
    ]

module _ (blake3 : Blake3) (aes128 : Aes) {E : Type 0} (pow : PowProver blake3 aes128 E)
    (challenge : List ℕ) (params : ProvingParams) (miner_id : List ℕ) where
  group_cipher-bound :
      (group : ℕ) (c : AesCipher blake3 aes128)
      → group_cipher blake3 aes128 pow challenge params miner_id group ≡ ok c
      → group < 256
  unfolding group_cipher
  group_cipher-bound group c e = elim (Bool-cases (ltb group 256)) [
    | inl below ↦ ground (arith, below)
    | inr above ↦ absurd (ground (arith, above, e))
  ]

  group_ciphers-bound :
      (groups : List ℕ) (cs : List (AesCipher blake3 aes128))
      → group_ciphers blake3 aes128 pow challenge params miner_id groups ≡ ok cs
      → All (λ g. g < 256) groups
  unfolding group_ciphers
  group_ciphers-bound [] cs e = tt
  group_ciphers-bound (group ∷ groups) cs e =
      elim (Result-cases (group_cipher blake3 aes128 pow challenge params miner_id group)) [
        | inr (_, failed) ↦ absurd (ground (arith, failed, e))
        | inl (c, made) ↦
            elim (Result-cases (group_ciphers blake3 aes128 pow challenge params miner_id groups)) [
              | inr (_, failed) ↦ absurd (ground (arith, made, failed, e))
              | inl (rest, all_made) ↦
                  (group_cipher-bound group c made, group_ciphers-bound groups rest all_made)
            ]
      ]

  pub new_prover-bound :
      (r : Range) (prover : Prover blake3 aes128)
      → r.end < 2 ^ 32
      → new_prover blake3 aes128 pow challenge r params miner_id ≡ some (ok prover)
      → (r.start + 16 ≤ r.end) × (r.end ≤ 4096)
  unfolding new_prover
  new_prover-bound r prover fits e = elim (Bool-cases (r.start % 16 == 0)) [
    | inr bad ↦ absurd (ground (arith, bad, e))
    | inl whole ↦ elim (Bool-cases (ltb r.start r.end && ((r.end - r.start) % 16 == 0))) [
      | inr bad ↦ absurd (ground (arith, whole, bad, e))
      | inl count ↦
          elim (Result-cases (
            group_ciphers blake3 aes128 pow challenge params miner_id
              (range_list blake3 aes128 (nonce_group_range r 16)))) [
                | inr (_, failed) ↦ absurd (ground (arith, whole, count, failed, e))
                | inl (cs, made) ↦ range_bound r fits whole count (group_ciphers-bound _ cs made)
              ]
    ]
  ]
