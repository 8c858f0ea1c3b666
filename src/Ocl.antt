-- ===== src/Ocl.antt =====
-- scrypt-ocl/src: the initializer that makes the labels on a GPU, through the crate `ocl`.
pub mod Interface
pub mod Filtering
pub mod Providers
pub mod Scrypter
pub mod Scrypt
pub mod Initializer
pub mod WorkSize
pub mod Buffers
pub mod Bounds
pub mod Select
pub mod Blocks
pub mod Work
pub mod Round
pub mod Writers
pub mod Rounds
pub mod Refine
