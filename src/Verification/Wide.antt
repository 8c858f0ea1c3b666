-- ===== src/Verification/Wide.antt =====
-- What `verify` does where the selection comes to a multiple of 65536 indices that remain.
use post_rs.Base.{ℕ, ◌+◌, ◌%◌, ◌<◌, ◌≤◌, ◌≡◌, arith, some, List}
use post_rs.Base.{length, take, length-take}
use post_rs.Base.Words.{IsU32}
use post_rs.Config.{InitConfig, ProofConfig}
use post_rs.Compression.Interface.{BitVecLaws}
use post_rs.Compression.{required_bits}
use post_rs.Compression.Unpacked.{length-decompress_indexes}
use post_rs.Crates.{AesLaws, Blake3}
use post_rs.Difficulty.{scale_pow_difficulty}
use post_rs.Metadata.{ProofMetadata}
use post_rs.RandomValues.{RandomValuesIterator, new_iterator, take_items}
use post_rs.RandomValues.Wide.{take_items_wide}
use post_rs.Verification.{Env, Proof, PowVerifier, accepted, verify, verify_seed}
use post_rs.Verification.Length.{expected_bounds}
use post_rs.Verification.Selected.{num_labels_of, IndicesPass}
use post_rs.Verification.Accept.{ValidProof, verify_accepted_iff}

none_selected :
    (blake3 : Blake3) (fuel count wide : ℕ) (items values : List ℕ) (seed : List (List ℕ))
    (it : RandomValuesIterator blake3 ℕ)
    → 0 < wide
    → wide % 65536 ≡ 0
    → wide ≤ length items
    → length items < count + wide
    → ¬ (take_items blake3 fuel count (new_iterator blake3 items seed) ≡ some (values, it))
unfolding new_iterator
none_selected blake3 fuel count wide items values seed it pos whole above below e =
    take_items_wide blake3 fuel count wide (new_iterator blake3 items seed) it values pos whole
      (omega (arith, above)) (omega (arith, below)) e

-- Where the selection of `k3` of `k2` indices comes to a positive multiple of 65536 that remain, which
-- is so if such a multiple is at most `k2` and above `k2 - k3`, `verify` accepts no proof, whatever its
-- fuel, if the scaled difficulty of the proof of work exists and `k1` is a 32-bit number.
pub verify-wide :
    {E : Type 0} (env : Env) (bits : BitVecLaws env.bitvec) (aes : AesLaws env.aes) (proof : Proof)
    (metadata : ProofMetadata) (cfg : ProofConfig) (init_cfg : InitConfig)
    (pow_verifier : PowVerifier E) (pow_difficulty : List ℕ) (wide : ℕ)
    → IsU32 cfg.k1
    → scale_pow_difficulty env.u256 cfg.pow_difficulty metadata.num_units ≡ some pow_difficulty
    → 0 < wide
    → wide % 65536 ≡ 0
    → wide ≤ cfg.k2
    → cfg.k2 < cfg.k3 + wide
    → ¬ (verify env pow_verifier proof metadata cfg init_cfg ≡ accepted)
unfolding ValidProof IndicesPass
verify-wide {E} env bits aes proof metadata cfg init_cfg pow_verifier pow_difficulty wide h scaled
      pos whole above below e =
    let (_, _, _, _, size, pass) =
      (verify_accepted_iff E env proof metadata cfg init_cfg aes pow_verifier pow_difficulty h
          scaled).0
        e in
    let (unpacked, values, difficulty, it, unpacks, _, selects, _) = pass in
    let width = required_bits (num_labels_of metadata init_cfg) in
    let many : cfg.k2 ≤ length unpacked =
      length-decompress_indexes env.bitvec bits proof.indices unpacked width cfg.k2 unpacks
        (grind (arith, size, (expected_bounds width cfg.k2).0)) in
    let all : length (take cfg.k2 unpacked) ≡ cfg.k2 =
      omega (arith, length-take cfg.k2 unpacked, many) in
    none_selected env.blake3 env.fuel cfg.k3 wide (take cfg.k2 unpacked) values
      (verify_seed env proof metadata) it pos whole (omega (arith, all, above))
      (omega (arith, all, below)) selects
