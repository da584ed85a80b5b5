-- ===== src/Upgrade/Coordinator.antt =====
-- internal/agentupgrade/coordinator.go: its interfaces, and what its methods share.
pub mod Scan
pub mod Events
pub mod Frames
pub mod Passes
pub mod Order
pub mod Closing
use konzhitai.Prelude.{
  ℕ, zero, suc, ◌+◌, Bool, true, false, not, ◌&&◌, ◌||◌, String, Option, none, some, List, [], ◌∷◌,
  any, all, find, keep, if◌then◌else◌, ◌==◌, nat_eq, string_eq, ltb,
}
use konzhitai.Prelude.Actions.{Action}
use konzhitai.Prelude.Int.{ℤ, pos, leb_ℤ}
use konzhitai.Clock.{Time, seconds, sub}
use konzhitai.Upgrade.Types.{
  Plan, Target, TargetStatus, target_status_eq, UpgradeStage, UpgradeCommand, UpgradeAction, Event,
  ArtifactInfo, ReleaseInfo, ServerRuntime, Error,
}
use konzhitai.Upgrade.Rollback.{Sent}

-- CoordinatorStore, UpgradeCommandSender, the clock and the source of ids.
pub record Stores : Type 1 where
  pub State : Type 0
  pub now : State → Time × State
  pub new_id : State → String × State
  pub active_plan : Action State Error (Option Plan)
  pub save_plan : Plan → Action State Error Plan
  pub release : String → Action State Error ReleaseInfo
  pub server_runtime : String → Action State Error ServerRuntime
  pub set_server_draining : String → Bool → Action State Error (Unit {0})
  pub append_event : Event → Action State Error (Unit {0})
  pub send : Sent → Action State Error (Unit {0})

-- `plan.Targets[index]`, and a write to it.
abbrev pub get_elem? {ℓ} : {A : Type ℓ} → List A → ℕ → Option A
get_elem? [] i = none
get_elem? (x ∷ xs) zero = some x
get_elem? (x ∷ xs) (suc i) = get_elem? xs i

abbrev pub set_elem {ℓ} : {A : Type ℓ} → List A → ℕ → A → List A
set_elem [] i y = []
set_elem (x ∷ xs) zero y = y ∷ xs
set_elem (x ∷ xs) (suc i) y = x ∷ set_elem xs i y

unfoldable pub runtime_available : ServerRuntime → String → Time → Bool
runtime_available r target_version now =
    r.enabled
    && (r.status == "online" || r.status == "draining")
    && r.agent_version == target_version
    && r.has_snapshot
    && elim r.last_seen_at [ none ↦ false | some seen ↦ leb_ℤ (sub now seen) (pos 15_000_000_000) ]

unfoldable pub without_batch_commands : List Sent → Plan → ℕ → List Sent
without_batch_commands commands plan batch =
    keep (λ c. not (any (λ t. t.batch_number == batch && c.command.target_id == t.id) plan.targets))
      commands

abbrev pub rank : TargetStatus → Option ℕ
rank TargetStatus.waiting = some 0
rank TargetStatus.draining = some 1
rank TargetStatus.downloading = some 2
rank TargetStatus.verifying = some 3
rank TargetStatus.installing = some 4
rank TargetStatus.reconnecting = some 5
rank TargetStatus.health_checking = some 6
rank TargetStatus.succeeded = some 7
rank _ = none

abbrev pub ranked_below : Option ℕ → Option ℕ → Bool
ranked_below (some i) (some j) = ltb i j
ranked_below _ _ = false

unfoldable pub forward_transition : TargetStatus → TargetStatus → Bool
forward_transition current next =
    if current == next
    then true
    else if current == TargetStatus.rolling_back && next == TargetStatus.rolled_back
    then true
    else ranked_below (rank current) (rank next)

-- `os` or `arch` that the runtime does not tell match anything.
unfoldable pub matching_artifact : List ArtifactInfo → String → String → Option ArtifactInfo
matching_artifact items os_name arch =
    find (λ a. (os_name == "" || a.os == os_name) && (arch == "" || a.arch == arch)) items

unfoldable pub install_command : Plan → Target → ArtifactInfo → UpgradeCommand
install_command plan t a = record {
  command_id = t.command_id;
  plan_id = plan.id;
  target_id = t.id;
  action = UpgradeAction.install;
  source_version = t.source_version;
  target_version = t.target_version;
  install_command_id = "";
  download_url = a.download_url;
  file_name = a.file_name;
  byte_size = a.byte_size;
  sha256 = a.sha256;
  reconnect_timeout = seconds plan.reconnect_timeout_seconds;
}

abbrev pub target_status_for_stage : UpgradeStage → Option TargetStatus
target_status_for_stage UpgradeStage.accepted = some TargetStatus.downloading
target_status_for_stage UpgradeStage.downloading = some TargetStatus.downloading
target_status_for_stage UpgradeStage.verifying = some TargetStatus.verifying
target_status_for_stage UpgradeStage.installing = some TargetStatus.installing
target_status_for_stage UpgradeStage.reconnecting = some TargetStatus.reconnecting
target_status_for_stage UpgradeStage.succeeded = some TargetStatus.reconnecting
target_status_for_stage UpgradeStage.rolling_back = some TargetStatus.rolling_back
target_status_for_stage UpgradeStage.rolled_back = some TargetStatus.rolled_back
target_status_for_stage _ = none
