-- ===== src/Examples/Serving.antt =====
-- The service through a whole proof and after a crash, and a client with a small service.
use post_rs.Base.{ℕ, ◌+◌, ◌≡◌, ◌↔◌, refl, ap, false, none, some, List, [], ◌∷◌}
use post_rs.Base.{length, take, replicate}
use post_rs.Base.Words.{Result, ok}
use post_rs.Base.Outcome.{done, panicked}
use post_rs.Metadata.{PostMetadata}
use post_rs.Verification.{Proof, accepted}
use post_rs.Service as Service
use post_rs.Service.{
  ProofGenState, in_progress, finished, running, returned, crashed, Thread, ProofGenProcess,
  fresh_service, poll, start, gen_proof, Step, request, returns, Steps, here, more,
}
use post_rs.Service.Safety.{gen_proof_sound, gen_proof_after_crash}
use post_rs.Client.{
  PostService, GenProofResponse, gen_proof_response, status_ok, Request, gen_proof_request,
  metadata_request, no_kind, convert_metadata, answer, answer_finished, answer_state,
  generate_and_verify_proof, handle, serve, connect,
}
use post_rs.Client.Laws.{IsVerified, generate_and_verify_proof-IsVerified, connect_gives_up_iff}

abbrev idle : Service.PostService ℕ
idle = record { proof_generation = none; poisoned = false; stop = false }

abbrev challenge : List ℕ
challenge = replicate 32 7

abbrev proof : Proof
proof = record { nonce = 1; indices = 3 ∷ []; pow = 9 }

-- A thread that may return this proof for this challenge only.
abbrev Generates : List ℕ → Result ℕ Proof → Type 0
Generates c result = (c ≡ challenge) × (result ≡ ok proof)

abbrev state_with : Thread ℕ → Service.PostService ℕ
state_with thread = record {
  proof_generation = some (record { handle = thread; challenge = challenge });
  poisoned = false;
  stop = false;
}

started : gen_proof {E = ℕ} fresh_service challenge ≡ (state_with running, done in_progress)
unfolding gen_proof start fresh_service
started = refl

collected : gen_proof (state_with (returned (ok proof))) challenge ≡ (idle, done (finished proof))
unfolding gen_proof poll fresh_service
collected = refl

two-Steps : Steps Generates fresh_service (state_with (returned (ok proof)))
two-Steps =
    more (more here (request challenge (ap (λ t. t.0) started)))
      (returns challenge (ok proof) refl (refl, refl) refl)

gen_proof_sound_example :
    (length challenge ≡ 32) × Generates challenge (ok proof) × (idle.proof_generation ≡ none)
gen_proof_sound_example =
    gen_proof_sound Generates (state_with (returned (ok proof))) idle challenge proof two-Steps
      collected

gen_proof_after_crash_example :
    gen_proof (gen_proof (state_with crashed) challenge).0 (replicate 32 8)
    ≡ ((gen_proof (state_with crashed) challenge).0, panicked)
gen_proof_after_crash_example =
    gen_proof_after_crash Generates (state_with crashed)
      (gen_proof (state_with crashed) challenge).0 challenge (replicate 32 8) refl refl here

abbrev meta : PostMetadata
meta = record {
  node_id = replicate 32 1;
  commitment_atx_id = replicate 32 2;
  labels_per_unit = 1000;
  num_units = 1;
  max_file_size = 16000;
  nonce = some 5;
  last_position = none;
}

abbrev ready : PostService ℕ
ready = record {
  State = Unit {0};
  get_metadata = λ s. ok meta;
  gen_proof = λ s c. (tt, done (finished proof));
  verify_proof = λ s p m. accepted;
}

abbrev sent : GenProofResponse
sent = record {
  proof = some proof;
  metadata = some (challenge, convert_metadata meta);
  status = status_ok;
}

answered : generate_and_verify_proof ready tt challenge ≡ (tt, answer (gen_proof_response sent))
unfolding generate_and_verify_proof answer_state answer_finished
answered = refl

generate_and_verify_proof-IsVerified_example :
    (ready.gen_proof tt challenge ≡ (tt, done (finished proof)))
    × IsVerified ready tt challenge proof sent
generate_and_verify_proof-IsVerified_example =
    generate_and_verify_proof-IsVerified ready tt tt challenge sent proof answered refl

abbrev requests : List Request
requests = metadata_request ∷ gen_proof_request challenge ∷ no_kind ∷ []

served : (serve ready tt requests).1 ≡ false
unfolding serve handle generate_and_verify_proof answer_state answer_finished
served = refl

connect_gives_up_iff_example :
    (connect (some 2) 1 (replicate 5 false) ≡ some false)
    ↔ (take (2 + 1) (replicate 5 false) ≡ replicate (2 + 1) false)
connect_gives_up_iff_example = connect_gives_up_iff 2 (replicate 5 false)
