-- ===== src/Ffi/Proofs.antt =====
-- A proof that `generate_proof` hands to C is the one that `verify_proof` takes back.
use post_rs.Base.{ℕ, ◌≡◌, ◌↔◌, inl, inr, refl, sym, ap, ◌∙◌, some, List, [], ◌∷◌}
use post_rs.Base.{length, take}
use post_rs.Base.Outcome.{Outcome, done, Outcome-cases}
use mathlib.Core.Path.{subst}
use post_rs.Config.{InitConfig, ProofConfig}
use post_rs.Metadata.{ProofMetadata}
use post_rs.Verification.{Env, Proof, PowVerifier, Verdict, accepted, rejected, stuck, verify}
use post_rs.Ffi.{verify_ok}
use post_rs.Ffi.Post.{
  CProof, to_c_proof, from_c_proof, generate_proof_inner, generate_proof_c, code, verdict_code,
  verify_proof_c,
}

take_all : (xs : List ℕ) → take (length xs) xs ≡ xs
take_all [] = refl
take_all (x ∷ xs) = ap (◌∷◌ x) (take_all xs)

from-to_c_proof : (capacity : ℕ) (proof : Proof) → from_c_proof (to_c_proof capacity proof) ≡ proof
unfolding from_c_proof to_c_proof
from-to_c_proof capacity proof =
    ap (λ (t : List ℕ). record { nonce = proof.nonce; indices = t; pow = proof.pow })
      (take_all proof.indices)

verdict_code_iff : {E : Type 0} (v : Verdict E) → (verdict_code v ≡ code verify_ok) ↔ (v ≡ accepted)
verdict_code_iff accepted = (λ e. refl, λ e. refl)
verdict_code_iff (rejected error) = (λ e. absurd (cc e), λ e. absurd (cc e))
verdict_code_iff Verdict.panicked = (λ e. absurd (cc e), λ e. absurd (cc e))
verdict_code_iff stuck = (λ e. absurd (cc e), λ e. absurd (cc e))

-- The proof that C gets is the one that was generated, and `verify_proof` on it returns `Ok` exactly
-- when `verify` accepts the generated proof.
pub verify_proof_c-generate_proof_c :
    {E F : Type 0} (env : Env) (verifier : PowVerifier E) (metadata : ProofMetadata)
    (cfg : ProofConfig) (init_cfg : InitConfig) (generate : List ℕ → List ℕ → Outcome F Proof)
    (capacity : ℕ) (datadir challenge : List ℕ) (c_proof : CProof)
    → generate_proof_c generate capacity (some datadir) challenge ≡ some (some c_proof)
    → (proof : Proof) × (generate datadir challenge ≡ done proof)
      × ((verify_proof_c env (some verifier) c_proof (some metadata) cfg init_cfg ≡ code verify_ok)
          ↔ (verify env verifier proof metadata cfg init_cfg ≡ accepted))
unfolding generate_proof_c generate_proof_inner verify_proof_c
verify_proof_c-generate_proof_c env verifier metadata cfg init_cfg generate capacity datadir
      challenge c_proof e =
    elim (Outcome-cases (generate datadir challenge)) [
      | inl (proof, f) ↦
          let generated : generate_proof_c generate capacity (some datadir) challenge
              ≡ some (some (to_c_proof capacity proof)) =
            rw (generate_proof_c, generate_proof_inner, f) refl in
          let made : to_c_proof capacity proof ≡ c_proof = cc (e, generated) in
          let same : from_c_proof c_proof ≡ proof =
            ap from_c_proof (sym made) ∙ from-to_c_proof capacity proof in
          (
            proof,
            f,
            subst
                (λ (t : Proof).
                  (verdict_code (verify env verifier t metadata cfg init_cfg) ≡ code verify_ok)
                  ↔ (verify env verifier proof metadata cfg init_cfg ≡ accepted))
                (sym same) (verdict_code_iff (verify env verifier proof metadata cfg init_cfg)),
          )
      | inr (inl (error, f)) ↦ absurd (cc (rw (generate_proof_c, generate_proof_inner, f) at e))
      | inr (inr f) ↦ absurd (cc (rw (generate_proof_c, generate_proof_inner, f) at e))
    ]
