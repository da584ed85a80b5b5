-- ===== src/Scheduler/Types.antt =====
-- internal/scheduler/types.go
use konzhitai.Prelude.{String, Bool}
use konzhitai.Prelude.Int.{ℤ}
use konzhitai.Clock.{Time}
use konzhitai.Task.{Resources}

pub data Outcome : Type 0 where
  assigned queued expired : Outcome

pub data EventType : Type 0 where
  run_queued resource_released server_online server_changed script_ready : EventType
  other : String → EventType

pub record Event : Type 0 where
  pub type : EventType
  pub run_id : String
  pub server_id : String

pub record Candidate : Type 0 where
  pub server_id : String
  pub total : Resources
  pub available : Resources
  pub running_tasks : ℤ
  pub max_concurrency : ℤ
  pub script_cached : Bool
  pub fairness_score : ℤ
  pub scheduling_weight : ℤ

pub record LeaseRequest : Type 0 where
  pub run_id : String
  pub server_id : String
  pub available : Resources
  pub required : Resources
  pub now : Time
  pub ttl : ℤ

pub record Lease : Type 0 where
  pub id : String
  pub run_id : String
  pub server_id : String
  pub resources : Resources
  pub expires_at : Time

pub record Assignment : Type 0 where
  pub run_id : String
  pub server_id : String
  pub script_version_id : String
  pub execution_token : String
  pub lease : Lease
  pub assigned_at : Time

pub data Error : Type 0 where
  run_not_found invalid_event invalid_lease_request : Error
  failure : String → Error
  wrapped : String → Error → Error
