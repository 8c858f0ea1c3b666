-- ===== src/Metadata.antt =====
-- src/metadata.rs: what is known of the initialized data, and how it is laid out in files.
-- `f64` is an interface: the conversion from u64, the quotient, `ceil` and the cast to usize.
-- Products of u64 wrap, as in a release build.
pub mod Layout
use post_rs.Base.{ℕ, ◌-◌, ◌*◌, ◌/◌, ◌%◌, ◌+◌, ◌^◌, ◌≤◌, ◌<◌, ◌≡◌, Option, none, some, List}
use post_rs.Base.{ltb, ◌==◌, if◌then◌else◌}
use post_rs.Base.Words.{u64, sub64}

pub record F64 : Type 1 where
  pub Float : Type 0
  pub from_u64 : ℕ → Float
  pub div : Float → Float → Float
  pub ceil : Float → Float
  pub to_usize : Float → ℕ

-- Integers below 2 ^ 53 are exact, and their rounded quotient has the ceiling of the exact one.
pub record F64Laws (f64 : F64) : Type 0 where
  pub ceil_div :
      (a b : ℕ)
      → a < 2 ^ 53
      → 0 < b
      → b < 2 ^ 53
      → f64.to_usize (f64.ceil (f64.div (f64.from_u64 a) (f64.from_u64 b))) ≡ (a + b - 1) / b

pub record PostMetadata : Type 0 where
  pub node_id : List ℕ
  pub commitment_atx_id : List ℕ
  pub labels_per_unit : ℕ
  pub num_units : ℕ
  pub max_file_size : ℕ
  pub nonce : Option ℕ
  pub last_position : Option ℕ

pub record ProofMetadata : Type 0 where
  pub node_id : List ℕ
  pub commitment_atx_id : List ℕ
  pub challenge : List ℕ
  pub num_units : ℕ

pub new_proof_metadata : PostMetadata → List ℕ → ProofMetadata
new_proof_metadata post_metadata challenge = record {
  node_id = post_metadata.node_id;
  commitment_atx_id = post_metadata.commitment_atx_id;
  challenge = challenge;
  num_units = post_metadata.num_units;
}

unfoldable pub total_labels : PostMetadata → ℕ
total_labels m = u64 (m.num_units * m.labels_per_unit)

unfoldable pub total_size : PostMetadata → ℕ
total_size m = u64 (total_labels m * 16)

module _ (f64 : F64) where
  unfoldable pub num_files : PostMetadata → ℕ
  num_files m =
      f64.to_usize (f64.ceil (f64.div (f64.from_u64 (total_size m)) (f64.from_u64 m.max_file_size)))

  -- The labels in the last file; `none` is the panic of a remainder by 0.
  unfoldable pub labels_in_last : PostMetadata → ℕ → Option ℕ
  labels_in_last m labels_in_files =
      if labels_in_files == 0
      then none
      else let remainder = total_labels m % labels_in_files in
        if ltb 0 remainder then some remainder else some labels_in_files

  -- `none` is a panic: of the assertion, or of the remainder.
  unfoldable pub labels_in_file : PostMetadata → ℕ → Option ℕ
  labels_in_file m idx =
      let labels_in_files = m.max_file_size / 16 in
      let last = sub64 (num_files m) 1 in
      if m.max_file_size % 16 == 0
      then if idx == last
        then labels_in_last m labels_in_files
        else if ltb idx last
        then some labels_in_files
        else some 0
      else none
