-- ===== src/Release.antt =====
-- internal/release: the data of manifest.go and of state.go. A file holds what `encoding/json` reads from it.
pub mod Checks
pub mod State
mod Tests
use konzhitai.Prelude.{ℕ, Bool, true, false, String, Option, Eq, decide}
use konzhitai.Prelude.Int.{ℤ}
use konzhitai.Clock.{Time}

pub record Images : Type 0 where
  pub services : String
  pub web : String
  pub ops : String

pub record Compatibility : Type 0 where
  pub migration_tree_sha256 : String
  pub deployment_contract_sha256 : String
  pub agent_version : String
  pub agent_manifest_sha256 : String

-- A `time.Time` with the offset of its zone.
pub record ZonedTime : Type 0 where
  pub instant : Time
  pub offset : ℤ

pub record Manifest : Type 0 where
  pub schema_version : ℤ
  pub candidate_run_id : ℤ
  pub repository_id : ℤ
  pub source_sha : String
  pub created_at : ZonedTime
  pub images : Images
  pub compatibility : Compatibility

-- `release_integration` is the origin of the integration tests, whose images a normal build refuses.
pub data ReleaseOrigin : Type 0 where
  ghcr bootstrap release_integration : ReleaseOrigin
  other : String → ReleaseOrigin

pub record ServiceImages : Type 0 where
  pub api : String
  pub scheduler : String
  pub web : String
  pub ops : String

pub record StoredRelease : Type 0 where
  pub target_id : String
  pub origin : ReleaseOrigin
  pub source_sha : String
  pub images : ServiceImages
  pub compatibility : Compatibility
  pub successful_at : ZonedTime
  pub validated : Bool

pub record AuditEvent : Type 0 where
  pub operation : String
  pub target_id : String
  pub status : String
  pub occurred_at : ZonedTime
  pub actor : String
  pub workflow_run_id : ℤ
  pub workflow_url : String
  pub source_sha : String
  pub rollback_status : String
  pub diagnostic_id : String

-- `not_exist` is `os.ErrNotExist`, `corrupt` a file that does not parse, `io_failure` any other failure of a file
-- operation, `crashed` the end of the process.
pub data Error : Type 0 where
  invalid_release release_exists release_not_found release_not_successful : Error
  not_exist corrupt io_failure crashed : Error

unfoldable pub Error_discrete : Discrete Error
Error_discrete = hlevel

instance abbrev pub error_eq : Eq Error
error_eq = record { beq = λ a b. decide (Error_discrete a b) }
