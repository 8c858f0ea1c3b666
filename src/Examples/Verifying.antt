-- ===== src/Examples/Verifying.antt =====
-- The verifier on a proof with two indices, of which one is checked.
use post_rs.Base.{List, ℕ, ◌+◌, ◌*◌, ◌^◌, ◌<◌, ◌≡◌, ◌↔◌, refl, arith, [], ◌∷◌, ◌++◌, some}
use post_rs.Base.{replicate}
use post_rs.Base.Words.{ok}
use post_rs.Config.{InitConfig, ProofConfig}
use post_rs.Difficulty.{scale_pow_difficulty}
use post_rs.Metadata.{ProofMetadata}
use post_rs.Prove.Nonces.{split_difficulty}
use post_rs.Verification.{
  Env, Proof, PowVerifier, Check, accepted, panicked, check_label, verify_metadata, verify,
}
use post_rs.Verification.Metadata.{verify_metadata_ok_iff}
use post_rs.Verification.Label.{label_number, check_label_iff}
use post_rs.Verification.Accept.{ValidProof, verify_accepted_iff}
use post_rs.Verification.ZeroLabels.{verify-panicked}
use post_rs.Certifier.{Ed25519, CertifyRequest, AppState, signed, certify}
use post_rs.Certifier.Signed.{certificate, certify_signed_iff}
use post_rs.Base.{get_elem?, take, drop, true, ◌/◌, ◌*◌}
use post_rs.Prove.Nonces.{calc_nonce}
use post_rs.Prove.Prover.{Prover, lazy_cipher}
use post_rs.Prove.Scan.Blocks.{get_elem?-encrypt_padded}
use post_rs.Prove.Scan.Feed.{is_candidate}
use post_rs.Verification.Agreement.{check_with, check_label-is_candidate_iff}
use post_rs.Examples.Crates.{blake3, aes, aes_laws, u256, scrypt}
use post_rs.Verification.Wide.{verify-wide}
use post_rs.Examples.Bits.{bitvec, bitvec_laws}

abbrev pub env : Env
env = record { bitvec = bitvec; u256 = u256; blake3 = blake3; aes = aes; scrypt = scrypt; fuel = 3 }

-- The indices 3 and 5 in ten bits each.
abbrev pub proof : Proof
proof = record { nonce = 1; indices = 3 ∷ 20 ∷ 0 ∷ []; pow = 0 }

abbrev pub metadata : ProofMetadata
metadata = record {
  node_id = replicate 32 0;
  commitment_atx_id = replicate 32 0;
  challenge = replicate 32 0;
  num_units = 1;
}

abbrev pub cfg : ProofConfig
cfg = record { k1 = 26; k2 = 2; k3 = 1; pow_difficulty = replicate 32 255 }

abbrev pub init_cfg : InitConfig
init_cfg = record {
  min_num_units = 1;
  max_num_units = 10;
  labels_per_unit = 1000;
  scrypt = record { n = 2; r = 1; p = 1 };
}

abbrev no_labels_cfg : InitConfig
no_labels_cfg = record {
  min_num_units = 1;
  max_num_units = 10;
  labels_per_unit = 2 ^ 64;
  scrypt = record { n = 2; r = 1; p = 1 };
}

abbrev pub all_pass : PowVerifier ℕ
all_pass = λ pow nonce_group challenge difficulty miner_id. ok tt

scaled_run : scale_pow_difficulty u256 (replicate 32 255) 1 ≡ some (replicate 32 255)
unfolding scale_pow_difficulty
scaled_run = refl

verify_accepted_iff_example :
    (verify env all_pass proof metadata cfg init_cfg ≡ accepted)
    ↔ ValidProof ℕ env proof metadata cfg init_cfg all_pass (replicate 32 255)
verify_accepted_iff_example =
    verify_accepted_iff ℕ env proof metadata cfg init_cfg aes_laws all_pass (replicate 32 255)
      (omega arith) scaled_run

abbrev check : Check env
check = record {
  cipher = record { aes = []; nonce_group = 0; pow = 0 };
  lazy_cipher = record { aes = 1 ∷ []; nonce_group = 0; pow = 0 };
  difficulty_msb = 5;
  difficulty_lsb = 9;
  output_index = 1;
}

split_run : split_difficulty (5 * 2 ^ 56 + 9) ≡ (5, 9)
unfolding split_difficulty
split_run = refl

check_label_iff_example :
    (check_label {E = ℕ} env check 3 (replicate 16 0) ≡ accepted)
    ↔ (label_number env check (replicate 16 0) < 5 * 2 ^ 56 + 9)
check_label_iff_example =
    check_label_iff env {E = ℕ} aes_laws check 3 (5 * 2 ^ 56 + 9) (replicate 16 0) (omega arith)
      split_run (omega arith)

verify-panicked_example :
    verify {E = ℕ} env all_pass
      (record { nonce = 1; indices = []; pow = 0 })
      metadata
      cfg
      no_labels_cfg
    ≡ panicked
verify-panicked_example =
    verify-panicked env (record { nonce = 1; indices = []; pow = 0 }) metadata cfg no_labels_cfg
      all_pass (replicate 32 255) units scaled_run (omega arith) refl refl refl
  where
    units : verify_metadata metadata no_labels_cfg ≡ ok tt
    units = (verify_metadata_ok_iff metadata no_labels_cfg).1 (omega arith, omega arith)

-- A key that is its own signature of everything.
abbrev ed25519 : Ed25519
ed25519 = record {
  SigningKey = List ℕ;
  sign = λ key message. key ++ message;
  verifying_key = λ key. key;
}

abbrev state : AppState ed25519 ℕ
state = record { verifier = all_pass; cfg = cfg; init_cfg = init_cfg; signer = 4 ∷ [] }

abbrev request : CertifyRequest
request = record { proof = proof; metadata = metadata }

certify_signed_iff_example :
    (certify ed25519 env state request ≡ signed (certificate ed25519 env state request))
    ↔ ValidProof ℕ env proof metadata cfg init_cfg all_pass (replicate 32 255)
certify_signed_iff_example =
    certify_signed_iff ed25519 env state request aes_laws (replicate 32 255) (omega arith)
      scaled_run

-- A prover with one cipher of each kind, and a chunk of equal labels.
abbrev prover : Prover blake3 aes
prover = record {
  ciphers = check.cipher ∷ [];
  lazy_ciphers = check.lazy_cipher ∷ [];
  difficulty_msb = 5;
  difficulty_lsb = 9;
}

abbrev chunk : List ℕ
chunk = replicate 128 1

third_byte : get_elem? (aes.encrypt_padded [] chunk) 3 ≡ some 1
third_byte = get_elem?-encrypt_padded aes aes_laws [] 8 0 3 chunk refl (omega arith) (omega arith)

lazy_run : lazy_cipher blake3 aes prover (calc_nonce 0 16 3) ≡ some check.lazy_cipher
unfolding lazy_cipher calc_nonce
lazy_run = refl

check_label-is_candidate_iff_example :
    (check_label {E = ℕ} env
        (check_with ℕ env aes_laws prover check.cipher check.lazy_cipher (calc_nonce 0 16 3))
        0
        (take 16 (drop (3 / 16 * 16) chunk))
      ≡ accepted)
    ↔ (is_candidate blake3 aes prover chunk 0 3 1 ≡ true)
check_label-is_candidate_iff_example =
    check_label-is_candidate_iff ℕ env aes_laws prover check.cipher check.lazy_cipher chunk 0 3 0 1
      refl (omega arith) (omega arith) third_byte lazy_run

-- As many indices as a `u16` cannot count.
abbrev wide_cfg : ProofConfig
wide_cfg = record { k1 = 26; k2 = 65536; k3 = 1; pow_difficulty = replicate 32 255 }

verify-wide_example : ¬ (verify env all_pass proof metadata wide_cfg init_cfg ≡ accepted)
verify-wide_example =
    verify-wide env bitvec_laws aes_laws proof metadata wide_cfg init_cfg all_pass
      (replicate 32 255) 65536 (omega arith) scaled_run (omega arith) (omega arith) (omega arith)
      (omega arith)
