-- ===== src/Upgrade/Service.antt =====
-- internal/agentupgrade/service.go
pub mod Create
pub mod Control
pub mod Cancels
pub mod Creates
pub mod Criteria
pub mod Batches
use konzhitai.Prelude.{
  ℕ, ◌+◌, Bool, true, false, not, ◌&&◌, ◌||◌, String, Option, List, any, contains, if◌then◌else◌,
  ◌==◌, ◌!=◌, string_eq,
}
use konzhitai.Prelude.Actions.{Action}
use konzhitai.Clock.{Time}
use konzhitai.Upgrade.Types.{Plan, ReleaseInfo, ServerInfo, Error}

abbrev pub self_upgrade : String
self_upgrade = "self_upgrade_v1"

-- `Repository`, the clock and the source of ids.
pub record Repository : Type 1 where
  pub State : Type 0
  pub now : State → Time × State
  pub new_id : State → String × State
  pub active_plan : Action State Error (Option Plan)
  pub release : String → Action State Error ReleaseInfo
  pub release_by_version : String → Action State Error ReleaseInfo
  pub servers : List String → Action State Error (List ServerInfo)
  pub create_plan : Plan → Action State Error Plan
  pub plan : String → Action State Error Plan
  pub save_plan : Plan → Action State Error Plan

unfoldable pub has_artifact : ReleaseInfo → String → String → Bool
has_artifact release os_name arch = any (λ a. a.os == os_name && a.arch == arch) release.artifacts

abbrev pub usable : ReleaseInfo → Bool
usable release = release.status == "available" && contains release.capabilities self_upgrade

abbrev pub reachable : ServerInfo → Bool
reachable server = server.enabled && (server.status == "online" || server.status == "draining")
