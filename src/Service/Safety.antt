-- ===== src/Service/Safety.antt =====
-- What the steps of the service keep: the process is for a challenge of 32 bytes, and what its
-- thread returned was generated for that challenge.
use post_rs.Base.{ℕ, ◌≡◌, ◌⊎◌, sym, ap, ◌∙◌, arith, true, false, Option, none, some, List, inl, inr}
use post_rs.Base.{length, Option-cases, Bool-cases, ◌==◌}
use post_rs.Base.Bytes.{eq_bytes, eq_bytes_sound, eq_bytes_refl}
use post_rs.Base.Words.{Result, ok, err}
use post_rs.Base.Outcome.{Outcome, done, failed, panicked}
use post_rs.Verification.{Proof}
use post_rs.Service.{
  ProofGenState, finished, different_challenge, ServiceError, Thread, running, returned, crashed,
  ProofGenProcess, PostService, fresh_service, poll, start, gen_proof, Step, request, returns,
  crashes, Steps, here, more, Reachable,
}
use mathlib.Core.Path.{subst}

-- A request leaves the service as it is, polls the process for its challenge, or starts one.
gen_proof-cases :
    {E : Type 0} (s : PostService E) (challenge : List ℕ)
    → ((r : Outcome (ServiceError E) ProofGenState) × (gen_proof s challenge ≡ (s, r))
        × ((proof : Proof) → ¬ (r ≡ done (finished proof))))
      ⊎ ((process : ProofGenProcess E) × (s.proof_generation ≡ some process)
          × (process.challenge ≡ challenge)
          × (gen_proof s challenge ≡ poll s process.handle))
      ⊎ (gen_proof s challenge ≡ start s challenge)
unfolding gen_proof
gen_proof-cases s challenge = elim (Bool-cases s.poisoned) [
  | inl bad ↦ inl (panicked, ground (arith, bad), λ proof f. cc f)
  | inr good ↦ elim (Option-cases s.proof_generation) [
    | inl idle ↦ inr (inr (ground (arith, good, idle)))
    | inr (process, e) ↦ elim (Bool-cases (eq_bytes process.challenge challenge)) [
      | inl same ↦ inr (
          inl (
            process,
            e,
            eq_bytes_sound process.challenge challenge same,
            ground (arith, good, e, same),
          ))
      | inr other ↦
          inl (failed different_challenge, ground (arith, good, e, other), λ proof f. cc f)
    ]
  ]
]

module _ {E : Type 0} (generates : List ℕ → Result E Proof → Type 0) where
  abbrev ThreadGood : List ℕ → Thread E → Type 0
  ThreadGood challenge running = Unit {0}
  ThreadGood challenge (returned result) = generates challenge result
  ThreadGood challenge crashed = Unit {0}

  abbrev ProcessGood : Option (ProofGenProcess E) → Type 0
  ProcessGood none = Unit {0}
  ProcessGood (some process) =
      (length process.challenge ≡ 32) × ThreadGood process.challenge process.handle

  poll-Good :
      (s : PostService E) (thread : Thread E)
      → ProcessGood s.proof_generation
      → ProcessGood (poll s thread).0.proof_generation
  unfolding poll
  poll-Good s running good = good
  poll-Good s (returned (ok proof)) good = tt
  poll-Good s (returned (err e)) good = tt
  poll-Good s crashed good = tt

  start-Good :
      (s : PostService E) (challenge : List ℕ)
      → ProcessGood s.proof_generation
      → ProcessGood (start s challenge).0.proof_generation
  unfolding start
  start-Good s challenge good = elim (Bool-cases (length challenge == 32)) [
    | inl full ↦ let size : length challenge ≡ 32 = ground arith in rw (full, start) (size, tt)
    | inr other ↦ rw (other, start) good
  ]

  gen_proof-Good :
      (s : PostService E) (challenge : List ℕ)
      → ProcessGood s.proof_generation
      → ProcessGood (gen_proof s challenge).0.proof_generation
  gen_proof-Good s challenge good = elim (gen_proof-cases s challenge) [
    | inl (r, same, other) ↦ subst (λ t. ProcessGood t.0.proof_generation) (sym same) good
    | inr (inl (process, e, c, polled)) ↦
        subst (λ t. ProcessGood t.0.proof_generation) (sym polled) (poll-Good s process.handle good)
    | inr (inr started) ↦
        subst (λ t. ProcessGood t.0.proof_generation) (sym started) (start-Good s challenge good)
  ]

  Step-Good :
      (s s' : PostService E)
      → Step generates s s'
      → ProcessGood s.proof_generation
      → ProcessGood s'.proof_generation
  Step-Good s s' (request challenge e) good = rw (← e) (gen_proof-Good s challenge good)
  Step-Good s s' (returns challenge result e g e') good =
      subst (λ t. ProcessGood t.proof_generation) (sym e') ((subst ProcessGood e good).0, g)
  Step-Good s s' (crashes challenge e e') good =
      subst (λ t. ProcessGood t.proof_generation) (sym e') ((subst ProcessGood e good).0, tt)

  Steps-Good :
      {s s' : PostService E}
      → Steps generates s s'
      → ProcessGood s.proof_generation
      → ProcessGood s'.proof_generation
  Steps-Good here good = good
  Steps-Good {s} {s'} (more {t} r step) good = Step-Good t s' step (Steps-Good r good)

  Reachable-Good : (s : PostService E) → Reachable generates s → ProcessGood s.proof_generation
  unfolding fresh_service
  Reachable-Good s r = Steps-Good r tt

  poll_finished :
      (s s' : PostService E) (thread : Thread E) (proof : Proof)
      → poll s thread ≡ (s', done (finished proof))
      → (thread ≡ returned (ok proof)) × (s'.proof_generation ≡ none)
  unfolding poll
  poll_finished s s' running proof e = absurd (ground (arith, e))
  poll_finished s s' (returned (ok p)) proof e =
      (ground (arith, e), sym (ap (λ t. t.0.proof_generation) e))
  poll_finished s s' (returned (err p)) proof e = absurd (ground (arith, e))
  poll_finished s s' crashed proof e = absurd (ground (arith, e))

  start_not_finished :
      (s s' : PostService E) (challenge : List ℕ) (proof : Proof)
      → ¬ (start s challenge ≡ (s', done (finished proof)))
  unfolding start
  start_not_finished s s' challenge proof e = ground (arith, e)

  -- In any state that steps lead to, a request that is answered with a finished proof was for a
  -- challenge of 32 bytes, the proof is one that the thread returned for that challenge, and the
  -- service is ready for another.
  pub gen_proof_sound :
      (s s' : PostService E) (challenge : List ℕ) (proof : Proof)
      → Reachable generates s
      → gen_proof s challenge ≡ (s', done (finished proof))
      → (length challenge ≡ 32) × generates challenge (ok proof) × (s'.proof_generation ≡ none)
  gen_proof_sound s s' challenge proof r e = elim (gen_proof-cases s challenge) [
    | inl (reply, same, other) ↦ absurd (other proof (ap (λ t. t.1) (sym same ∙ e)))
    | inr (inl (process, held, c, polled)) ↦
        let (handle, ready) = poll_finished s s' process.handle proof (sym polled ∙ e) in
        let (size, good) = subst ProcessGood held (Reachable-Good s r) in
        let same : ThreadGood process.challenge (returned (ok proof)) =
          subst (ThreadGood process.challenge) handle good in
        (ap length (sym c) ∙ size, subst (λ t. generates t (ok proof)) c same, ready)
    | inr (inr started) ↦ absurd (start_not_finished s s' challenge proof (sym started ∙ e))
  ]

  panics :
      (s : PostService E) (challenge : List ℕ)
      → s.poisoned ≡ true
      → gen_proof s challenge ≡ (s, panicked)
  unfolding gen_proof
  panics s challenge bad = ground (arith, bad)

  Step-poisoned :
      (s s' : PostService E) → Step generates s s' → s.poisoned ≡ true → s'.poisoned ≡ true
  Step-poisoned s s' (request challenge e) bad =
      subst (λ t. t.poisoned ≡ true) (sym (ap (λ t. t.0) (panics s challenge bad)) ∙ e) bad
  Step-poisoned s s' (returns challenge result e g e') bad = ap (λ t. t.poisoned) e' ∙ bad
  Step-poisoned s s' (crashes challenge e e') bad = ap (λ t. t.poisoned) e' ∙ bad

  Steps-poisoned :
      {s s' : PostService E} → Steps generates s s' → s.poisoned ≡ true → s'.poisoned ≡ true
  Steps-poisoned here bad = bad
  Steps-poisoned {s} {s'} (more {t} r step) bad = Step-poisoned t s' step (Steps-poisoned r bad)

  crash_poisons :
      (s : PostService E) (challenge : List ℕ)
      → s.poisoned ≡ false
      → s.proof_generation ≡ some (record { handle = crashed; challenge = challenge })
      → (gen_proof s challenge).0.poisoned ≡ true
  unfolding gen_proof poll
  crash_poisons s challenge good held = ground (arith, good, held, eq_bytes_refl challenge)

  -- Once a request has met a thread that panicked, every later request, for whatever challenge
  -- and after whatever steps, panics: the mutex stays poisoned.
  pub gen_proof_after_crash :
      (s s' : PostService E) (challenge other : List ℕ)
      → s.poisoned ≡ false
      → s.proof_generation ≡ some (record { handle = crashed; challenge = challenge })
      → Steps generates (gen_proof s challenge).0 s'
      → gen_proof s' other ≡ (s', panicked)
  gen_proof_after_crash s s' challenge other good held steps =
      panics s' other (Steps-poisoned steps (crash_poisons s challenge good held))
