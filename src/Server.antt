-- ===== src/Server.antt =====
-- internal/server/model.go: what the scheduler knows of an execution server.
use konzhitai.Prelude.{Bool, String, Map, List}
use konzhitai.Prelude.Int.{ℤ}

pub data Status : Type 0 where
  pending online offline draining quarantined : Status

-- `Snapshot`; a `map[string]bool` reads as false where a key is missing.
pub record Snapshot : Type 0 where
  pub agent_capabilities : List String
  pub id : String
  pub status : Status
  pub enabled : Bool
  pub is_draining : Bool
  pub labels : Map String
  pub runtimes : List String
  pub max_concurrency : ℤ
  pub running_tasks : ℤ
  pub cpu_total_millicores : ℤ
  pub cpu_available_millicores : ℤ
  pub memory_total_bytes : ℤ
  pub memory_available_bytes : ℤ
  pub disk_total_bytes : ℤ
  pub disk_available_bytes : ℤ
  pub ready_script_versions : Map Bool
  pub blocked_script_versions : Map Bool
  pub scheduling_weight : ℤ
  pub fairness_score : ℤ
