-- ===== src/Verification/Metadata.antt =====
-- The bounds of `verify_metadata`.
use post_rs.Base.{◌≤◌, ◌≡◌, ◌↔◌, arith}
use post_rs.Base.Words.{ok}
use post_rs.Config.{InitConfig}
use post_rs.Metadata.{ProofMetadata}
use post_rs.Verification.{verify_metadata}

-- The metadata is valid exactly when its number of units is within the bounds of the
-- configuration, both included.
pub verify_metadata_ok_iff :
    (metadata : ProofMetadata) (init_cfg : InitConfig)
    → (verify_metadata metadata init_cfg ≡ ok tt) ↔ (
        (init_cfg.min_num_units ≤ metadata.num_units)
        × (metadata.num_units ≤ init_cfg.max_num_units))
unfolding verify_metadata
verify_metadata_ok_iff metadata init_cfg = ground arith
