-- ===== src/Certifier/Signed.antt =====
-- What is certified.
use post_rs.Base.{ℕ, ◌≡◌, ◌↔◌, arith, some, List}
use post_rs.Base.Words.{IsU32}
use post_rs.Crates.{AesLaws}
use post_rs.Difficulty.{scale_pow_difficulty}
use post_rs.Verification.{Env, accepted, verify}
use post_rs.Verification.Accept.{ValidProof, verify_accepted_iff}
use post_rs.Certifier.{Ed25519, CertifyRequest, CertifyResponse, signed, AppState, certify}

module _ (ed25519 : Ed25519) {E : Type 0} (env : Env) (state : AppState ed25519 E)
    (request : CertifyRequest) where
  abbrev pub certificate : CertifyResponse
  certificate = record {
    signature = ed25519.sign state.signer request.metadata.node_id;
    pub_key = ed25519.verifying_key state.signer;
  }

  signed_iff : (certify ed25519 env state request ≡ signed certificate) ↔ (
      verify env state.verifier request.proof request.metadata state.cfg state.init_cfg ≡ accepted)
  unfolding certify
  signed_iff = ground arith

  -- For a 32-bit `k1` and a scaled difficulty of the proof of work that exists, the certifier
  -- answers a request with its signature of the node id and its public key exactly when the proof is
  -- valid for the metadata of the request.
  pub certify_signed_iff :
      (laws : AesLaws env.aes) (pow_difficulty : List ℕ)
      → IsU32 state.cfg.k1
      → scale_pow_difficulty env.u256 state.cfg.pow_difficulty request.metadata.num_units
        ≡ some pow_difficulty
      → (certify ed25519 env state request ≡ signed certificate)
        ↔ ValidProof E env request.proof request.metadata state.cfg state.init_cfg state.verifier
            pow_difficulty
  certify_signed_iff laws pow_difficulty h e =
      let (to, from) = signed_iff in
      let (valid, back) =
        verify_accepted_iff E env request.proof request.metadata state.cfg state.init_cfg laws
          state.verifier pow_difficulty h e in
      (λ p. valid (to p), λ p. from (back p))
