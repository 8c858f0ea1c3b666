-- ===== src/Prove/Generate/Ends.antt =====
-- How often the loop of `generate_proof` goes round, and that it has a result.
use post_rs.Base.{
  ℕ, zero, suc, ◌+◌, ◌*◌, ◌^◌, ◌<◌, ◌≤◌, ◌≡◌, refl, arith, inl, inr, ◌⊎◌, Option, none, some, List,
  [],
}
use post_rs.Base.Words.{Result, ok, err, u32}
use post_rs.Base.Outcome.{Outcome, done, failed, panicked}
use post_rs.Config.{ProofConfig}
use post_rs.Metadata.{PostMetadata}
use post_rs.Crates.{Blake3, Aes}
use post_rs.Compression.Interface.{BitVec}
use post_rs.Difficulty.{U256}
use post_rs.Reader.{Batch}
use post_rs.Verification.{Proof}
use post_rs.Prove.Nonces.{Range}
use post_rs.Prove.Prover.{ProvingParams, PowProver, Prover, new_prover}
use post_rs.Prove.Prover.Groups.{new_prover-bound}
use post_rs.Prove.Search.{Searches}
use post_rs.Prove.Search.Total.{Searches_total}
use post_rs.Base.{Option-cases}
use post_rs.Prove.Generate.{
  GenerateError, Surroundings, first_range, next_range, queues_of, Generates, stopped, no_prover,
  prover_panics, no_data, found, next_round, prepare, Follows, GeneratesProof,
}

OptionResult-cases :
    {A B : Type 0} (o : Option (Result A B))
    → (o ≡ none) ⊎ ((e : A) × (o ≡ some (err e))) ⊎ ((b : B) × (o ≡ some (ok b)))
OptionResult-cases none = inl refl
OptionResult-cases (some (err e)) = inr (inl (e, refl))
OptionResult-cases (some (ok b)) = inr (inr (b, refl))

-- The ranges that the loop comes to, of `nonces` nonces each.
abbrev pub IsReached : ℕ → Range → Type 0
IsReached nonces r = (r.end ≡ r.start + u32 nonces) × (r.end < 2 ^ 32)

first_range-IsReached : (nonces : ℕ) → IsReached nonces (first_range nonces)
unfolding first_range
first_range-IsReached nonces = (omega arith, omega arith)

next_range-start : (nonces : ℕ) (r : Range) → (next_range nonces r).start ≡ r.end
unfolding next_range
next_range-start nonces r = refl

next_range-IsReached :
    (nonces : ℕ) (r : Range)
    → IsReached nonces r
    → r.end ≤ 4096
    → IsReached nonces (next_range nonces r)
unfolding next_range
next_range-IsReached nonces r h below = (omega (arith, h.0, below), omega arith)

module _ (blake3 : Blake3) (aes128 : Aes) (bitvec : BitVec) {E : Type 0}
    (around : Surroundings blake3 aes128 E) (challenge : List ℕ) (cfg : ProofConfig)
    (nonces : ℕ) where
  module _ (metadata : PostMetadata) (params : ProvingParams)
      (pow : PowProver blake3 aes128 E) where
    abbrev Run : Range → Outcome (GenerateError E) Proof → Type 0
    Run r outcome =
        Generates blake3 aes128 bitvec around challenge cfg nonces metadata params pow r outcome

    -- The rounds of the loop before the last.
    abbrev pub rounds : {r : Range} {outcome : Outcome (GenerateError E) Proof} → Run r outcome → ℕ
    rounds (stopped r s) = 0
    rounds (no_prover r e p) = 0
    rounds (prover_panics r p) = 0
    rounds (no_data r prover p b) = 0
    rounds (found r prover batches result outcome p b s e) = 0
    rounds (next_round r prover batches outcome p b s rest) = suc (rounds rest)

    rounds-bound :
        {r : Range} {outcome : Outcome (GenerateError E) Proof}
        → IsReached nonces r
        → r.start ≤ 4096
        → (run : Run r outcome) → rounds run * 16 + r.start ≤ 4096
    rounds-bound h below (stopped r s) = omega (arith, below)
    rounds-bound h below (no_prover r e p) = omega (arith, below)
    rounds-bound h below (prover_panics r p) = omega (arith, below)
    rounds-bound h below (no_data r prover p b) = omega (arith, below)
    rounds-bound h below (found r prover batches result outcome p b s e) = omega (arith, below)
    rounds-bound h below (next_round r prover batches outcome p b s rest) =
        let (whole, bound) =
          new_prover-bound blake3 aes128 pow challenge params metadata.node_id r prover h.1 p in
        let start = next_range-start nonces r in
        let ih =
          rounds-bound (next_range-IsReached nonces r h bound) (omega (arith, start, bound)) rest in
        omega (arith, whole, start, ih)

    abbrev HasRun : Range → Type 0
    HasRun r = (outcome : Outcome (GenerateError E) Proof) × Run r outcome

    after_search :
        (r : Range) (prover : Prover blake3 aes128) (batches : List Batch)
        → new_prover blake3 aes128 pow challenge r params metadata.node_id ≡ some (ok prover)
        → around.read_data r ≡ some batches
        → HasRun (next_range nonces r)
        → HasRun r
    after_search r prover batches p b next =
        let (result, s) =
          Searches_total cfg.k2 around.stop []
            (queues_of blake3 aes128 bitvec around challenge cfg nonces prover batches) in
        ended result s
      where
        ended :
            (result : Option (ℕ × List ℕ))
            → Searches cfg.k2 around.stop []
                (queues_of blake3 aes128 bitvec around challenge cfg nonces prover batches)
                result
            → HasRun r
        ended none s = (next.0, next_round r prover batches next.0 p b s next.1)
        ended (some result) s = (_, found r prover batches result _ p b s refl)

    round-HasRun :
        (r : Range)
        → IsReached nonces r
        → (r.start + 16 ≤ r.end → r.end ≤ 4096 → HasRun (next_range nonces r))
        → HasRun r
    round-HasRun r h next =
        elim (OptionResult-cases
          (new_prover blake3 aes128 pow challenge r params metadata.node_id)) [
            | inl p ↦ (panicked, prover_panics r p)
            | inr (inl (e, p)) ↦ (_, no_prover r e p)
            | inr (inr (prover, p)) ↦ elim (Option-cases (around.read_data r)) [
              | inl b ↦ (_, no_data r prover p b)
              | inr (batches, b) ↦
                  let (whole, bound) =
                    new_prover-bound blake3 aes128 pow challenge params metadata.node_id r prover
                      h.1 p in
                  after_search r prover batches p b (next whole bound)
            ]
          ]

    Run_total : (fuel : ℕ) (r : Range) → IsReached nonces r → 4096 < fuel + r.start → HasRun r
    Run_total zero r h enough =
        round-HasRun r h λ whole bound. absurd (omega (arith, enough, whole, bound))
    Run_total (suc fuel) r h enough = round-HasRun r h λ whole bound.
        Run_total fuel (next_range nonces r) (next_range-IsReached nonces r h bound)
          (omega (arith, enough, whole, bound, next_range-start nonces r))

    first_range-start : (first_range nonces).start ≡ 0
    unfolding first_range
    first_range-start = refl

  first_run :
      (metadata : PostMetadata) (params : ProvingParams) (pow : PowProver blake3 aes128 E)
      → HasRun metadata params pow (first_range nonces)
  first_run metadata params pow =
      Run_total metadata params pow 4097 (first_range nonces) (first_range-IsReached nonces)
        (omega arith)

  Follows-some :
      (prepared : Outcome
        (GenerateError E)
        (PostMetadata × ProvingParams × PowProver blake3 aes128 E))
      → (outcome : Outcome (GenerateError E) Proof) × Follows blake3 aes128 bitvec around challenge
          cfg nonces prepared outcome
  Follows-some (done (metadata, params, pow)) = first_run metadata params pow
  Follows-some (failed e) = (failed e, refl)
  Follows-some panicked = (panicked, refl)

  -- `generate_proof` has a result in all surroundings, whether or not its flag is ever set.
  pub generate_proof_ends :
      (u256 : U256)
      → (outcome : Outcome (GenerateError E) Proof) × GeneratesProof blake3 aes128 bitvec around
          challenge cfg nonces u256 outcome
  unfolding GeneratesProof
  generate_proof_ends u256 =
      Follows-some (prepare blake3 aes128 bitvec around challenge cfg nonces u256)

  -- From the first range of nonces on, no run of the loop of `generate_proof` goes on to another range
  -- more than 256 times.
  pub rounds-first_range :
      (metadata : PostMetadata) (params : ProvingParams) (pow : PowProver blake3 aes128 E)
      (outcome : Outcome (GenerateError E) Proof)
      (run : Generates blake3 aes128 bitvec around challenge cfg nonces metadata params pow
        (first_range nonces)
        outcome)
      → rounds metadata params pow run ≤ 256
  rounds-first_range metadata params pow outcome run =
      let start = first_range-start metadata params pow in
      omega (
        arith,
        start,
        rounds-bound metadata params pow (first_range-IsReached nonces) (omega (arith, start)) run,
      )
