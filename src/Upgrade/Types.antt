-- ===== src/Upgrade/Types.antt =====
-- internal/agentupgrade/model.go and internal/agentprotocol/upgrade.go
use konzhitai.Prelude.{
  ℕ, Bool, true, false, ◌||◌, String, Option, List, [], ◌∷◌, Eq, decide, any, all, ◌==◌, nat_eq,
  if◌then◌else◌,
}
use konzhitai.Prelude.Int.{ℤ}
use konzhitai.Clock.{Time}

pub data PlanStatus : Type 0 where
  pending running paused succeeded cancelled : PlanStatus

pub data TargetStatus : Type 0 where
  waiting draining downloading verifying installing reconnecting health_checking succeeded :
      TargetStatus
  rolling_back rolled_back manual_intervention cancelled : TargetStatus

unfoldable pub PlanStatus_discrete : Discrete PlanStatus
PlanStatus_discrete = hlevel

unfoldable pub TargetStatus_discrete : Discrete TargetStatus
TargetStatus_discrete = hlevel

instance abbrev pub plan_status_eq : Eq PlanStatus
plan_status_eq = record { beq = λ a b. decide (PlanStatus_discrete a b) }

instance abbrev pub target_status_eq : Eq TargetStatus
target_status_eq = record { beq = λ a b. decide (TargetStatus_discrete a b) }

pub data Error : Type 0 where
  invalid_plan active_plan_exists server_ineligible upgrade_unsupported artifact_unavailable : Error
  no_upgrade_needed version_not_comparable downgrade_not_allowed rollback_source_changed : Error
  upgrade_source_changed release_not_found plan_not_found target_not_found invalid_transition :
      Error
  failure : String → Error

pub data UpgradeAction : Type 0 where
  install rollback : UpgradeAction

-- A stage is a text; `other` is any that the protocol does not name.
pub data UpgradeStage : Type 0 where
  accepted downloading verifying installing reconnecting succeeded rolling_back rolled_back failed :
      UpgradeStage
  other : String → UpgradeStage

pub record UpgradeCommand : Type 0 where
  pub command_id : String
  pub plan_id : String
  pub target_id : String
  pub action : UpgradeAction
  pub source_version : String
  pub target_version : String
  pub install_command_id : String
  pub download_url : String
  pub file_name : String
  pub byte_size : ℤ
  pub sha256 : String
  pub reconnect_timeout : ℤ

pub record UpgradeEvent : Type 0 where
  pub command_id : String
  pub target_id : String
  pub stage : UpgradeStage
  pub occurred_at : Time
  pub error_code : String
  pub message : String

pub record CreatePlanInput : Type 0 where
  pub target_release_id : String
  pub server_ids : List String
  pub batch_size : ℤ
  pub drain_timeout_seconds : ℤ
  pub reconnect_timeout_seconds : ℤ
  pub verification_seconds : ℤ
  pub created_by : String

-- Batches count from 1 and there is no more than one for each target.
pub record Target : Type 0 where
  pub id : String
  pub plan_id : String
  pub server_id : String
  pub server_name : String
  pub batch_number : ℕ
  pub source_version : String
  pub target_version : String
  pub source_draining : Bool
  pub status : TargetStatus
  pub attempts : ℤ
  pub command_id : String
  pub install_command_id : String
  pub error_code : String
  pub error_message : String
  pub started_at : Option Time
  pub updated_at : Time
  pub finished_at : Option Time

pub record Event : Type 0 where
  pub id : String
  pub plan_id : String
  pub target_id : String
  pub server_id : String
  pub command_id : String
  pub stage : UpgradeStage
  pub error_code : String
  pub message : String
  pub occurred_at : Time

-- Without the list of events, which only the store fills.
pub record Plan : Type 0 where
  pub id : String
  pub target_release_id : String
  pub target_version : String
  pub status : PlanStatus
  pub first_batch_size : ℤ
  pub batch_size : ℤ
  pub drain_timeout_seconds : ℤ
  pub reconnect_timeout_seconds : ℤ
  pub verification_seconds : ℤ
  pub current_batch : ℕ
  pub revision : ℤ
  pub cancel_requested : Bool
  pub created_by : String
  pub pause_reason : String
  pub created_at : Time
  pub started_at : Option Time
  pub finished_at : Option Time
  pub targets : List Target

pub record ArtifactInfo : Type 0 where
  pub os : String
  pub arch : String
  pub file_name : String
  pub sha256 : String
  pub download_url : String
  pub byte_size : ℤ

pub record ReleaseInfo : Type 0 where
  pub id : String
  pub version : String
  pub status : String
  pub capabilities : List String
  pub artifacts : List ArtifactInfo

pub record ServerRuntime : Type 0 where
  pub status : String
  pub enabled : Bool
  pub draining : Bool
  pub running_tasks : ℤ
  pub agent_version : String
  pub agent_os : String
  pub agent_arch : String
  pub last_seen_at : Option Time
  pub has_snapshot : Bool

pub record ServerInfo : Type 0 where
  pub id : String
  pub status : String
  pub agent_version : String
  pub agent_os : String
  pub agent_arch : String
  pub enabled : Bool
  pub draining : Bool
  pub capabilities : List String

-- `terminalTargetStatus`
abbrev pub terminal_target_status : TargetStatus → Bool
terminal_target_status s =
    s == TargetStatus.succeeded
    || s == TargetStatus.rolled_back
    || s == TargetStatus.manual_intervention
    || s == TargetStatus.cancelled

abbrev pub all_targets_terminal : Plan → Bool
all_targets_terminal plan = all (λ t. terminal_target_status t.status) plan.targets

abbrev pub has_batch : Plan → ℕ → Bool
has_batch plan batch = any (λ t. t.batch_number == batch) plan.targets

-- The loop of `batchSucceeded`, which has found a target of the batch or not.
unfoldable pub batch_succeeded_from : Bool → ℕ → List Target → Bool
batch_succeeded_from found batch [] = found
batch_succeeded_from found batch (t ∷ ts) =
    let rest = batch_succeeded_from true batch ts in
    let skipped = batch_succeeded_from found batch ts in
    if t.batch_number == batch
    then (if t.status == TargetStatus.succeeded then rest else false)
    else skipped

abbrev pub batch_succeeded : Plan → ℕ → Bool
unfolding batch_succeeded_from
batch_succeeded plan batch = batch_succeeded_from false batch plan.targets
