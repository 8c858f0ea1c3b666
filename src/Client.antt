-- ===== src/Client.antt =====
-- service/src/client.rs: `ServiceClient`, which serves the requests of a node.
pub mod Laws
use post_rs.Base.{ℕ, zero, suc, ◌+◌, Bool, true, false, Option, none, some, List, [], ◌∷◌}
use post_rs.Base.{length, leb, ◌==◌, if◌then◌else◌}
use post_rs.Base.Words.{Result, ok, err}
use post_rs.Base.Outcome.{Outcome, done, failed, panicked}
use post_rs.Metadata.{PostMetadata, ProofMetadata, new_proof_metadata}
use post_rs.Verification.{Proof, Verdict, accepted, rejected, stuck}
use post_rs.Verification as Verification
use post_rs.Service.{ProofGenState, in_progress, finished}

-- `trait PostService`: a service that keeps a state. `get_metadata` and `verify_proof` only read.
pub record PostService (E : Type 0) : Type 1 where
  pub State : Type 0
  pub get_metadata : State → Result E PostMetadata
  pub gen_proof : State → List ℕ → State × Outcome E ProofGenState
  pub verify_proof : State → Proof → ProofMetadata → Verdict E

-- `spacemesh_v1::Metadata`
pub record Metadata : Type 0 where
  pub node_id : List ℕ
  pub commitment_atx_id : List ℕ
  pub nonce : Option ℕ
  pub num_units : ℕ
  pub labels_per_unit : ℕ

pub convert_metadata : PostMetadata → Metadata
convert_metadata meta = record {
  node_id = meta.node_id;
  commitment_atx_id = meta.commitment_atx_id;
  nonce = meta.nonce;
  num_units = meta.num_units;
  labels_per_unit = meta.labels_per_unit;
}

-- `GenProofStatus`
pub data Status : Type 0 where
  status_ok : Status
  status_error : Status

-- `GenProofResponse`: the proof, the challenge with the metadata, and the status.
pub record GenProofResponse : Type 0 where
  pub proof : Option Proof
  pub metadata : Option (List ℕ × Metadata)
  pub status : Status

-- `ServiceResponse`
pub data Response : Type 0 where
  gen_proof_response : GenProofResponse → Response
  metadata_response : Option Metadata → Response

-- `node_request::Kind`, or none.
pub data Request : Type 0 where
  metadata_request : Request
  gen_proof_request : List ℕ → Request
  no_kind : Request

abbrev pub error_response : Response
error_response =
    gen_proof_response (record { proof = none; metadata = none; status = status_error })

-- What a handler does: it answers, panics, or draws on past the fuel of the verifier.
pub data Answer : Type 0 where
  answer : Response → Answer
  panic : Answer
  no_answer : Answer

module _ {E : Type 0} (service : PostService E) where
  open service use {State, get_metadata, gen_proof, verify_proof}

  -- `generate_and_verify_proof` from a finished proof on.
  unfoldable pub answer_finished : State → List ℕ → Proof → Answer
  answer_finished s challenge proof = elim (get_metadata s) [
    | err e ↦ answer error_response
    | ok post_metadata ↦
        if length challenge == 32
        then elim (verify_proof s proof (new_proof_metadata post_metadata challenge)) [
          | rejected e ↦ answer error_response
          | Verification.panicked ↦ panic
          | stuck ↦ no_answer
          | accepted ↦ answer (
              gen_proof_response (record {
                proof = some proof;
                metadata = some (challenge, convert_metadata post_metadata);
                status = status_ok;
              }))
        ]
        else panic
  ]

  unfoldable pub answer_state : State → List ℕ → Outcome E ProofGenState → Answer
  answer_state s challenge (done (finished proof)) = answer_finished s challenge proof
  answer_state s challenge (done in_progress) =
      answer (gen_proof_response (record { proof = none; metadata = none; status = status_ok }))
  answer_state s challenge (failed e) = answer error_response
  answer_state s challenge panicked = panic

  -- `ServiceClient::generate_and_verify_proof`
  unfoldable pub generate_and_verify_proof : State → List ℕ → State × Answer
  generate_and_verify_proof s challenge =
      let (s', result) = gen_proof s challenge in (s', answer_state s' challenge result)

  -- `ServiceClient::get_metadata`
  pub answer_metadata : State → Response
  answer_metadata s = elim (get_metadata s) [
    | err e ↦ metadata_response none
    | ok meta ↦ metadata_response (some (convert_metadata meta))
  ]

  unfoldable pub handle : State → Request → State × Answer
  handle s metadata_request = (s, answer (answer_metadata s))
  handle s (gen_proof_request challenge) = generate_and_verify_proof s challenge
  handle s no_kind = (s, answer error_response)

  -- The loop of `register_and_serve` on the requests that the node sends, and the responses that
  -- are sent before it ends; the last component is whether a handler panicked or did not answer.
  unfoldable pub serve : State → List Request → List Response × Bool
  serve s [] = ([], false)
  serve s (request ∷ requests) =
      let (s', reply) = handle s request in
      let (responses, broken) = serve s' requests in
      elim reply [
        | answer response ↦ (response ∷ responses, broken)
        | panic ↦ ([], true)
        | no_answer ↦ ([], true)
      ]

-- The inner loop of `run`: whether each attempt to connect succeeds, and the number of the first;
-- `some true` is a connection, `some false` the error after too many attempts, and `none` that the
-- loop goes on after all these attempts.
pub connect : Option ℕ → ℕ → List Bool → Option Bool
connect max_retries attempt [] = none
connect max_retries attempt (true ∷ attempts) = some true
connect none attempt (false ∷ attempts) = connect none (attempt + 1) attempts
connect (some max) attempt (false ∷ attempts) =
    let rest = connect (some max) (attempt + 1) attempts in
    if leb attempt max then rest else some false
