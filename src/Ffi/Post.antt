-- ===== src/Ffi/Post.antt =====
-- ffi/src/post_impl.rs: proofs across the boundary, and the verifier for C.
use post_rs.Base.{ℕ, Bool, true, false, Option, none, some, List}
use post_rs.Base.{length, take}
use post_rs.Base.Words.{ok, err}
use post_rs.Base.Outcome.{Outcome, done, failed, panicked}
use post_rs.Config.{InitConfig, ProofConfig}
use post_rs.Metadata.{ProofMetadata}
use post_rs.Pow.{RandomX, PoW, new_pow}
use post_rs.Verification.{Env, Proof, PowVerifier, Verdict, accepted, rejected, stuck, verify}
use post_rs.Ffi.{
  VerifyResult, verify_ok, verify_invalid, verify_invalid_argument,
  verify_failed_to_create_verifier,
}

-- `ArrayU8`: the memory that the pointer leads to, its length and capacity.
pub record ArrayU8 : Type 0 where
  pub memory : List ℕ
  pub len : ℕ
  pub cap : ℕ

pub record CProof : Type 0 where
  pub nonce : ℕ
  pub indices : ArrayU8
  pub pow : ℕ

-- `From<prove::Proof> for Proof`, for a vector of this capacity, and back.
unfoldable pub to_c_proof : ℕ → Proof → CProof
to_c_proof capacity proof = record {
  nonce = proof.nonce;
  indices = record { memory = proof.indices; len = length proof.indices; cap = capacity };
  pow = proof.pow;
}

unfoldable pub from_c_proof : CProof → Proof
from_c_proof val = record {
  nonce = val.nonce;
  indices = take val.indices.len val.indices.memory;
  pow = val.pow;
}

-- `_generate_proof`, on `prove::generate_proof`: the directory is not always valid UTF-8.
pub data GenerateError (E : Type 0) : Type 0 where
  reading_datadir : GenerateError E
  proving : E → GenerateError E

unfoldable pub generate_proof_inner :
    {E : Type 0}
    → (List ℕ → List ℕ → Outcome E Proof)
    → Option (List ℕ)
    → List ℕ
    → Outcome (GenerateError E) Proof
generate_proof_inner generate none challenge = failed reading_datadir
generate_proof_inner generate (some datadir) challenge = elim (generate datadir challenge) [
  | done proof ↦ done proof
  | failed e ↦ failed (proving e)
  | panicked ↦ panicked
]

-- `generate_proof`: a null pointer is `some none`, a panic `none`.
unfoldable pub generate_proof_c :
    {E : Type 0}
    → (List ℕ → List ℕ → Outcome E Proof)
    → ℕ
    → Option (List ℕ)
    → List ℕ
    → Option (Option CProof)
generate_proof_c generate capacity datadir challenge =
    elim (generate_proof_inner generate datadir challenge) [
      | done proof ↦ some (some (to_c_proof capacity proof))
      | failed e ↦ some none
      | panicked ↦ none
    ]

-- `new_verifier`, with the verifier stored in `out` if it is not null.
pub new_verifier : (randomx : RandomX) → randomx.Flags → Bool → VerifyResult × Option (PoW randomx)
new_verifier randomx flags false = (verify_invalid_argument, none)
new_verifier randomx flags true = elim (new_pow randomx flags) [
  | ok verifier ↦ (verify_ok, some verifier)
  | err e ↦ (verify_failed_to_create_verifier, none)
]

-- What a call of `verify_proof` does: a code, the end of the process, or no end of its loop.
pub data CVerdict : Type 0 where
  code : VerifyResult → CVerdict
  aborts : CVerdict
  does_not_end : CVerdict

abbrev pub verdict_code : {E : Type 0} → Verdict E → CVerdict
verdict_code accepted = code verify_ok
verdict_code (rejected e) = code verify_invalid
verdict_code Verdict.panicked = aborts
verdict_code stuck = does_not_end

-- `verify_proof`
unfoldable pub verify_proof_c :
    {E : Type 0}
    → Env
    → Option (PowVerifier E)
    → CProof
    → Option ProofMetadata
    → ProofConfig
    → InitConfig
    → CVerdict
verify_proof_c env none proof metadata cfg init_cfg = code verify_invalid_argument
verify_proof_c env (some verifier) proof none cfg init_cfg = code verify_invalid_argument
verify_proof_c env (some verifier) proof (some metadata) cfg init_cfg =
    verdict_code (verify env verifier (from_c_proof proof) metadata cfg init_cfg)
