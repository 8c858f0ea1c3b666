-- ===== src/Certifier.antt =====
-- certifier/src/certifier.rs: `certify`, which signs the node id of a valid proof.
pub mod Signed
use post_rs.Base.{ℕ, List}
use post_rs.Config.{InitConfig, ProofConfig}
use post_rs.Metadata.{ProofMetadata}
use post_rs.Verification.{
  Env, Proof, PowVerifier, Error, accepted, rejected, panicked, stuck, verify,
}

-- `ed25519_dalek::SigningKey`
pub record Ed25519 : Type 1 where
  pub SigningKey : Type 0
  pub sign : SigningKey → List ℕ → List ℕ
  pub verifying_key : SigningKey → List ℕ

pub record CertifyRequest : Type 0 where
  pub proof : Proof
  pub metadata : ProofMetadata

pub record CertifyResponse : Type 0 where
  pub signature : List ℕ
  pub pub_key : List ℕ

-- The response, or a status code. A panic of the verifier in its task is an internal error; where
-- the verifier draws on past its fuel there is no answer.
pub data Certified (E : Type 0) : Type 0 where
  signed : CertifyResponse → Certified E
  forbidden : Error E → Certified E
  internal_error : Certified E
  no_answer : Certified E

module _ (ed25519 : Ed25519) where
  pub record AppState (E : Type 0) : Type 0 where
    pub verifier : PowVerifier E
    pub cfg : ProofConfig
    pub init_cfg : InitConfig
    pub signer : ed25519.SigningKey

  pub certify : {E : Type 0} → Env → AppState E → CertifyRequest → Certified E
  certify env state request =
      elim (verify env state.verifier request.proof request.metadata state.cfg state.init_cfg) [
        | panicked ↦ internal_error
        | stuck ↦ no_answer
        | rejected e ↦ forbidden e
        | accepted ↦ signed (record {
          signature = ed25519.sign state.signer request.metadata.node_id;
          pub_key = ed25519.verifying_key state.signer;
        })
      ]
