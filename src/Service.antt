-- ===== src/Service.antt =====
-- service/src/service.rs: `PostService`, which generates at most one proof at a time in a thread.
pub mod Safety
use post_rs.Base.{ℕ, ◌≡◌, Bool, true, false, Option, none, some, List}
use post_rs.Base.{length, ◌==◌, if◌then◌else◌}
use post_rs.Base.Bytes.{eq_bytes}
use post_rs.Base.Words.{Result, ok, err}
use post_rs.Base.Outcome.{Outcome, done, failed, panicked}
use post_rs.Config.{InitConfig, ProofConfig}
use post_rs.Metadata.{ProofMetadata}
use post_rs.Verification.{Env, Proof, PowVerifier, Verdict}
use post_rs.Verification as Verification

pub data ProofGenState : Type 0 where
  in_progress : ProofGenState
  finished : Proof → ProofGenState

-- The thread behind a `JoinHandle`: it runs, has returned, or has panicked.
pub data Thread (E : Type 0) : Type 0 where
  running : Thread E
  returned : Result E Proof → Thread E
  crashed : Thread E

pub record ProofGenProcess (E : Type 0) : Type 0 where
  pub handle : Thread E
  pub challenge : List ℕ

-- The mutex with the process, whether it is poisoned, and the flag that stops the thread.
pub record PostService (E : Type 0) : Type 0 where
  pub proof_generation : Option (ProofGenProcess E)
  pub poisoned : Bool
  pub stop : Bool

-- What `gen_proof` and the thread fail with.
pub data ServiceError (E : Type 0) : Type 0 where
  different_challenge : ServiceError E
  invalid_challenge : ServiceError E
  generation_failed : E → ServiceError E

module _ {E : Type 0} where
  -- The state that a service starts with.
  unfoldable pub fresh_service : PostService E
  fresh_service = record { proof_generation = none; poisoned = false; stop = false }

  -- `PostService::new`, with what `PoW::new` gives; its verifier is an argument of `verify_proof`.
  pub new_service : {F V : Type 0} → Result F V → Result F (PostService E × V)
  new_service (ok verifier) = ok (fresh_service, verifier)
  new_service (err e) = err e

  -- A process for the same challenge: it is joined when it has ended. A panic of the thread goes
  -- on in the caller, who holds the lock.
  unfoldable pub poll :
      PostService E → Thread E → PostService E × Outcome (ServiceError E) ProofGenState
  poll s running = (s, done in_progress)
  poll s (returned (ok proof)) = (record s { proof_generation = none }, done (finished proof))
  poll s (returned (err e)) = (record s { proof_generation = none }, failed (generation_failed e))
  poll s crashed = (record s { proof_generation = none; poisoned = true }, panicked)

  unfoldable pub start :
      PostService E → List ℕ → PostService E × Outcome (ServiceError E) ProofGenState
  start s challenge =
      if length challenge == 32
      then (
        record s { proof_generation = some (record { handle = running; challenge = challenge }) },
        done in_progress,
      )
      else (s, failed invalid_challenge)

  -- `PostService::gen_proof`
  unfoldable pub gen_proof :
      PostService E → List ℕ → PostService E × Outcome (ServiceError E) ProofGenState
  gen_proof s challenge = if s.poisoned then (s, panicked) else elim s.proof_generation [
    | none ↦ start s challenge
    | some process ↦
        if eq_bytes process.challenge challenge
        then poll s process.handle
        else (s, failed different_challenge)
  ]

  -- `PostService::verify_proof`
  pub verify_proof :
      Env → PowVerifier E → ProofConfig → InitConfig → Proof → ProofMetadata → Verdict E
  verify_proof env pow_verifier cfg init_cfg proof metadata =
      Verification.verify env pow_verifier proof metadata cfg init_cfg

  -- What happens to the service: requests, and the end of the thread, which may return any result
  -- that `generates` allows for its challenge, or panic.
  pub data Step (generates : List ℕ → Result E Proof → Type 0) (s s' : PostService E) : Type 0 where
    request : (challenge : List ℕ) → (gen_proof s challenge).0 ≡ s' → Step generates s s'
    returns :
        (challenge : List ℕ) (result : Result E Proof)
        → s.proof_generation ≡ some (record { handle = running; challenge = challenge })
        → generates challenge result
        → s' ≡ record s {
          proof_generation = some (record { handle = returned result; challenge = challenge });
        }
        → Step generates s s'
    crashes :
        (challenge : List ℕ)
        → s.proof_generation ≡ some (record { handle = running; challenge = challenge })
        → s' ≡ record s {
          proof_generation = some (record { handle = crashed; challenge = challenge });
        }
        → Step generates s s'

  pub data Steps (generates : List ℕ → Result E Proof → Type 0) (s : PostService E)
      : PostService E → Type 0 where
    here : Steps generates s s
    more : {t u : PostService E} → Steps generates s t → Step generates t u → Steps generates s u

  abbrev pub Reachable : (List ℕ → Result E Proof → Type 0) → PostService E → Type 0
  Reachable generates s = Steps generates fresh_service s
