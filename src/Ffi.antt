-- ===== src/Ffi.antt =====
-- ffi/src: the functions that C calls. A pointer that may be null is an option, what it points to a
-- value; a panic, which ends the process, is `none`.
pub mod Initialization
pub mod Post
pub mod Codes
pub mod Names
pub mod Proofs

-- post_impl.rs: `VerifyResult`.
pub data VerifyResult : Type 0 where
  verify_ok : VerifyResult
  verify_invalid : VerifyResult
  verify_invalid_argument : VerifyResult
  verify_failed_to_create_verifier : VerifyResult
  verify_failed : VerifyResult
