-- ===== src/Prove.antt =====
-- src/prove.rs: generating proofs.
pub mod Nonces
pub mod Prover
pub mod Scan
pub mod Collect
pub mod Search
pub mod Generate
