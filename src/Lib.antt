-- ===== src/Lib.antt =====
-- post-rs
--
-- The proofs of space-time of the repository, in Rust. A node first writes a table of labels, each
-- the scrypt hash of its commitment and of the label's index, to files. For a challenge it then
-- reads the files, encrypts the labels with AES under keys that depend on the challenge, and looks
-- for a nonce with `k2` labels below a difficulty; the packed indices of these labels, the nonce and
-- a proof of work are the proof. A verifier draws `k3` of the indices and makes their labels again.
--
-- The files, and the code that each models:
--   Base            lists, options, bytes, machine words and results that the others share
--   Compression     src/compression.rs: `compress_indices`, `decompress_indexes`, `required_bits`
--   Config          src/config.rs: the parameters of the network and of scrypt
--   Difficulty      src/difficulty.rs: `proving_difficulty`, `scale_pow_difficulty`
--   RandomValues    src/random_values_gen.rs: `Blake3Rng` and `RandomValuesIterator`
--   Metadata        src/metadata.rs: `PostMetadata`, `ProofMetadata` and the layout of the files
--   Pow             src/pow/mod.rs and src/pow/randomx.rs: `PoW`, which proves and verifies
--   Cipher          src/cipher.rs: `AesCipher`
--   Prove           src/prove.rs: nonces (Prove.Nonces), `ProvingParams` and `Prover8_56` with its
--                   constructor (Prove.Prover), its scan of a batch (Prove.Scan), and the
--                   closure of `generate_proof` that collects indices (Prove.Collect), the parallel
--                   search (Prove.Search) and the loop (Prove.Generate)
--   Initialize      src/initialize.rs: `CpuInitializer`, `generate_label` and the split into files
--   Reader          src/reader.rs: `BatchingReader`, and the files of a directory (Reader.Files)
--   Verification    src/verification.rs: `verify_metadata` and `Verifier::verify`
--   PosVerification src/pos_verification.rs: the check of the stored data, file by file
--   Ocl             scrypt-ocl/src/lib.rs and filtering.rs: the list of providers, `Scrypter`, which
--                   sizes and runs the kernel in rounds, and `OpenClInitializer`
--   Ffi             ffi/src/initialization.rs and ffi/src/post_impl.rs: the functions for C, with
--                   their codes and pointers
--   Service         service/src/service.rs: `PostService`, a state machine with the thread that makes
--                   the proof
--   Client          service/src/client.rs: `ServiceClient`: its handlers, the serving loop and the
--                   retries of the connecting loop
--   Certifier       certifier/src/certifier.rs: `certify`, over signatures as an interface
--   Crates          interfaces of the crates blake3, aes, scrypt-jane; bitvec stands in
--                   Compression.Interface, primitive_types in Difficulty, f64 in Metadata and
--                   randomx_rs in Pow
--   Examples        simple instances of the interfaces, and the theorems at concrete inputs
--
-- The proofs stand in the modules below those that they are about. The verifier calls Compression,
-- Difficulty, RandomValues, Cipher and Initialize (it makes labels with `generate_label`), and a
-- proof of work verifier that is its argument, as in the code. The prover calls Difficulty, Cipher and
-- a proof of work prover that is its argument.
--
-- Numbers are natural numbers; casts and wrapping products of words are written out (`u8` to `u64`),
-- with the wrap-around of a release build. Bytes and byte arrays are lists of numbers. A panic is a
-- value: `none` where nothing else can go wrong, else a constructor of the result. A writer is a
-- state with a `write_all` that may fail; the data directory is a state with the faults to come.
--
-- The threads of `generate_proof` hand indices to one map behind a lock: `Prove.Search` relates the
-- candidates of the batches, handed over in any interleaving, to any result, and `Prove.Generate` the
-- rounds of the loop. What a round reads and what the flag does are parts of the surroundings.
--
-- Fuel: only the loop of `RandomValuesIterator::next`, which draws numbers until one is below a
-- bound, has no bound of its own. It has fuel here, and a result of its own for running out. The
-- batches of a reader are counted by fuel too, and one call more than there are bytes is enough. All
-- else is recursion on a list or on a number of rounds.
--
-- The lock of the service, its poisoning and the thread are parts of its state: the thread runs, has
-- returned or has panicked, and steps of its own change it between the requests. The client reaches
-- the service through the trait `PostService`, a record here; the messages of the node are a list.
--
-- The parallel search for a proof of work may return any solution, so it is the relation `Pow.Proves`
-- between its arguments and its result. The check of stored data is parallel too: `Verifies` relates a
-- file to each result that it may have, and its choice of labels, made by the crate rand, is one of its
-- arguments.
--
-- The OpenCL initializer reaches the crate ocl through an interface whose calls may fail; the kernel
-- is one of them. It reads its input and writes its output in buffers that are lists. A pointer of C is an
-- option, and an object behind one is returned changed.
--
-- The laws of the crates are hypotheses of the theorems that need them, records named after the
-- interface (`BitVecLaws`, `AesLaws`, `U256Laws`, `F64Laws`); the instances in Examples satisfy them.
--
-- Not modelled: the OpenCL kernel itself (a C program), the threads of a pool, the
-- command line and network set-up of the service and of the certifier, the functions of ffi that only
-- free memory or pass on log records, the command line tools (initializer, profiler), reading and
-- writing JSON, logging, and the crates themselves.
pub mod Base
pub mod Compression
pub mod Config
pub mod Difficulty
pub mod Crates
pub mod RandomValues
pub mod Metadata
pub mod Pow
pub mod Cipher
pub mod Prove
pub mod Initialize
pub mod Verification
pub mod Reader
pub mod Service
pub mod Client
pub mod Certifier
pub mod Examples
pub mod Ocl
pub mod PosVerification
pub mod Ffi
