-- ===== src/Client/Laws.antt =====
-- What the client sends, and when it gives up connecting.
use post_rs.Base.{
  ℕ, zero, suc, ◌+◌, ◌≡◌, ◌↔◌, ◌∙◌, ◌⊎◌, refl, sym, ap, arith, inl, inr, Bool, true, false, none,
  some, List, [], ◌∷◌,
}
use mathlib.Core.Path.{ap₂, subst}
use post_rs.Base.{length, take, replicate, leb, ◌==◌, Bool-cases}
use post_rs.Base.Words.{ok, Result-cases}
use post_rs.Base.Outcome.{Outcome, done, failed, panicked}
use post_rs.Metadata.{PostMetadata, new_proof_metadata}
use post_rs.Verification.{Proof, Verdict, accepted, rejected, stuck}
use post_rs.Verification as Verification
use post_rs.Service.{ProofGenState, in_progress, finished}
use post_rs.Client.{
  PostService, GenProofResponse, gen_proof_response, Request, answer, convert_metadata, status_ok,
  status_error, answer_finished, answer_state, generate_and_verify_proof, handle, serve, connect,
  error_response,
}

Verdict-cases :
    {E : Type 0} (v : Verdict E)
    → (v ≡ accepted)
      ⊎ ((e : Verification.Error E) × (v ≡ rejected e))
      ⊎ (v ≡ Verification.panicked)
      ⊎ (v ≡ stuck)
Verdict-cases accepted = inl refl
Verdict-cases (rejected e) = inr (inl (e, refl))
Verdict-cases Verification.panicked = inr (inr (inl refl))
Verdict-cases stuck = inr (inr (inr refl))

abbrev sent : List ℕ → Proof → PostMetadata → GenProofResponse
sent challenge proof meta = record {
  proof = some proof;
  metadata = some (challenge, convert_metadata meta);
  status = status_ok;
}

abbrev nothing : GenProofResponse
nothing = record { proof = none; metadata = none; status = status_error }

module _ {E : Type 0} (service : PostService E) where
  open service use {State, get_metadata, gen_proof, verify_proof}

  -- The response holds the proof, which the verifier accepted with the metadata that it holds.
  pub IsVerified : State → List ℕ → Proof → GenProofResponse → Type 0
  IsVerified s challenge proof response =
      (meta : PostMetadata) × (get_metadata s ≡ ok meta)
      × (verify_proof s proof (new_proof_metadata meta challenge) ≡ accepted)
      × (response.metadata ≡ some (challenge, convert_metadata meta))
      × (response.status ≡ status_ok)

  finished-IsVerified :
      (s : State) (challenge : List ℕ) (made proof : Proof) (response : GenProofResponse)
      → answer_finished service s challenge made ≡ answer (gen_proof_response response)
      → response.proof ≡ some proof
      → (made ≡ proof) × IsVerified s challenge proof response
  unfolding answer_finished IsVerified
  finished-IsVerified s challenge made proof response e p = elim (Result-cases (get_metadata s)) [
    | inr (bad, m) ↦ absurd (no_proof (ground (arith, m)))
    | inl (meta, m) ↦ elim (Bool-cases (length challenge == 32)) [
      | inr short ↦ absurd (ground (arith, m, short))
      | inl full ↦ elim (Verdict-cases (verify_proof s made (new_proof_metadata meta challenge))) [
        | inr (inl (bad, v)) ↦ absurd (no_proof (ground (arith, m, full, v)))
        | inr (inr (inl v)) ↦ absurd (ground (arith, m, full, v))
        | inr (inr (inr v)) ↦ absurd (ground (arith, m, full, v))
        | inl v ↦
            let out : answer_finished service s challenge made
                ≡ answer (gen_proof_response (sent challenge made meta)) =
              ground (arith, m, full, v) in
            let same : sent challenge made meta ≡ response = cc in
            let proofs : made ≡ proof = cc (ap (λ t. t.proof) same) in
            (
              proofs,
              (
                meta,
                m,
                rw (← proofs) v,
                sym (ap (λ t. t.metadata) same),
                sym (ap (λ t. t.status) same),
              ),
            )
      ]
    ]
  ]
    where
      no_proof : ¬ (answer_finished service s challenge made ≡ answer error_response)
      no_proof f = let same : nothing ≡ response = cc in absurd (cc (ap (λ t. t.proof) same))

  state-IsVerified :
      (s : State) (challenge : List ℕ) (reply : Outcome E ProofGenState) (proof : Proof)
      (response : GenProofResponse)
      → answer_state service s challenge reply ≡ answer (gen_proof_response response)
      → response.proof ≡ some proof
      → (reply ≡ done (finished proof)) × IsVerified s challenge proof response
  unfolding answer_state
  state-IsVerified s challenge (done (finished made)) proof response e p =
      let (same, verified) = finished-IsVerified s challenge made proof response e p in
      (ap (λ t. done (finished t)) same, verified)
  state-IsVerified s challenge (done in_progress) proof response e p =
      let same : record nothing { status = status_ok } ≡ response = cc in
      absurd (cc (ap (λ t. t.proof) same))
  state-IsVerified s challenge (failed bad) proof response e p =
      let same : nothing ≡ response = cc in absurd (cc (ap (λ t. t.proof) same))
  state-IsVerified s challenge panicked proof response e p = absurd (cc e)

  -- If the answer to a request for a proof holds a proof, then the service had finished this proof,
  -- it has metadata, its verifier accepted the proof with the metadata and the challenge of the
  -- request, and the answer holds them and the status `Ok`.
  pub generate_and_verify_proof-IsVerified :
      (s s' : State) (challenge : List ℕ) (response : GenProofResponse) (proof : Proof)
      → generate_and_verify_proof service s challenge ≡ (s', answer (gen_proof_response response))
      → response.proof ≡ some proof
      → (gen_proof s challenge ≡ (s', done (finished proof)))
        × IsVerified s' challenge proof response
  unfolding generate_and_verify_proof
  generate_and_verify_proof-IsVerified s s' challenge response proof e p =
      let state : (gen_proof s challenge).0 ≡ s' = ap (λ t. t.0) e in
      let reply = ap (λ t. t.1) e in
      let (made, verified) =
        state-IsVerified (gen_proof s challenge).0 challenge (gen_proof s challenge).1 proof
          response reply p in
      (
        ap₂ (λ a b. (a, b)) state made,
        subst (λ t. IsVerified t challenge proof response) state verified,
      )

  -- As long as no handler panics, and the verifier ends within its fuel, every request has its
  -- response.
  pub length-serve :
      (s : State) (requests : List Request)
      → (serve service s requests).1 ≡ false
      → length (serve service s requests).0 ≡ length requests
  unfolding serve
  length-serve s [] e = refl
  length-serve s (request ∷ requests) e =
      ground (arith, length-serve (handle service s request).0 requests)

head : List Bool → Bool
head [] = false
head (b ∷ bs) = b

tail : List Bool → List Bool
tail [] = []
tail (b ∷ bs) = bs

true_not_false : ¬ (true ≡ false)
true_not_false e = cc e

failures :
    (n max attempt : ℕ) (attempts : List Bool)
    → attempt + n ≡ max + 1
    → (connect (some max) attempt attempts ≡ some false)
      ↔ (take (suc n) attempts ≡ replicate (suc n) false)
unfolding connect head tail
failures n max attempt [] h = (λ e. absurd (cc e), λ e. absurd (cc e))
failures n max attempt (true ∷ attempts) h =
    (λ e. absurd (cc e), λ e. absurd (true_not_false (ap head e)))
failures zero max attempt (false ∷ attempts) h = (λ e. refl, λ e. ground arith)
failures (suc n) max attempt (false ∷ attempts) h =
    let pass : leb attempt max ≡ true = ground arith in
    let ih = failures n max (attempt + 1) attempts (omega arith) in
    let step : connect (some max) attempt (false ∷ attempts)
        ≡ connect (some max) (attempt + 1) attempts =
      ground (arith, pass) in
    (λ e. ap (◌∷◌ false) (ih.0 (sym step ∙ e)), λ e. step ∙ ih.1 (ap tail e))

-- With at most `max` retries, the loop gives up exactly when the first `max + 1` attempts fail.
pub connect_gives_up_iff :
    (max : ℕ) (attempts : List Bool)
    → (connect (some max) 1 attempts ≡ some false)
      ↔ (take (max + 1) attempts ≡ replicate (max + 1) false)
connect_gives_up_iff max attempts =
    let n : max + 1 ≡ suc max = omega arith in rw (n) (failures max max 1 attempts (omega arith))
