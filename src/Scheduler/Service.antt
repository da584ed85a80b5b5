-- ===== src/Scheduler/Service.antt =====
-- internal/scheduler/service.go over the interfaces of types.go: the stores are a state and
-- operations that may fail; the service adds its queue.
pub mod Schedule
pub mod Scan
pub mod Leases
pub mod Waiting
use konzhitai.Prelude.{
  ℕ, zero, suc, ◌+◌, Bool, true, false, not, ◌&&◌, ◌||◌, String, Option, none, some, List, [], ◌∷◌,
  length, Result, ok, err, if◌then◌else◌, ◌==◌, ◌!=◌, string_eq, leb,
}
use konzhitai.Prelude.Int.{ℤ, pos, ltb_ℤ, leb_ℤ, ◌+ℤ◌, ◌*ℤ◌}
use konzhitai.Clock.{Time, second, minute, hour, seconds, add, before}
use konzhitai.Task.{Run, RunState, state_eq}
use konzhitai.Server.{Snapshot}
use konzhitai.Alert
use konzhitai.Scheduler.Types.{
  Outcome, EventType, Event, Candidate, Lease, LeaseRequest, Assignment, Error, invalid_event,
  wrapped,
}
use konzhitai.Scheduler.Filter.{filter}
use konzhitai.Scheduler.Score.{rank_candidates}
use konzhitai.Scheduler.Queue.{Queue, push, pop, remove, len}

-- RunStore, ServerSource, LeaseStore, the alert sink, the clock and the source of tokens. A store
-- that lacks one of the optional interfaces (SetQueueReason, RetryFailed, ListReleasedLeases,
-- ListActiveLeases, Restore) answers with success and an empty list.
pub record Stores : Type 1 where
  pub State : Type 0
  pub now : State → Time × State
  pub new_token : State → String × State
  pub get : String → State → Result Error Run × State
  pub list_queued : State → Result Error (List Run) × State
  pub count_active : String → State → Result Error ℤ × State
  pub assign : Assignment → State → Result Error Bool × State
  pub expire : String → Time → State → Result Error Bool × State
  pub set_queue_reason : String → String → State → Result Error (Unit {0}) × State
  pub snapshots : Run → State → Result Error (List Snapshot) × State
  pub try_reserve : LeaseRequest → State → Result Error (Option Lease) × State
  pub release : Lease → State → Result Error (Unit {0}) × State
  pub raise_alert : Alert.Event → State → Result Error (Unit {0}) × State
  pub retry_failed : Time → State → Result Error (Unit {0}) × State
  pub list_released : Time → State → Result Error (List Lease) × State
  pub list_active : Time → State → Result Error (List Lease) × State
  pub restore : Lease → Time → State → Result Error (Unit {0}) × State

unfoldable pub lease_ttl : Run → ℤ
lease_ttl run =
    let timeout = seconds run.timeout_seconds in
    (if leb_ℤ timeout (pos 0) then hour else timeout) +ℤ pos 2 *ℤ minute

abbrev pub timeout_alert : Run → Alert.Event
timeout_alert run = record {
  resource_type = "task_run";
  resource_id = run.id;
  code = "task_queue_timeout";
  severity = Alert.warning;
  title = "任务排队超时";
  message = "在最大等待时间内没有可分配的服务器，任务已停止排队";
}

abbrev pub request : Run → Candidate → Time → LeaseRequest
request run c now = record {
  run_id = run.id;
  server_id = c.server_id;
  available = c.available;
  required = run.resources;
  now = now;
  ttl = lease_ttl run;
}

abbrev pub assignment : Run → Candidate → String → Lease → Time → Assignment
assignment run c token lease now = record {
  run_id = run.id;
  server_id = c.server_id;
  script_version_id = run.script_version_id;
  execution_token = token;
  lease = lease;
  assigned_at = now;
}

abbrev is_some_list {ℓ} : {A : Type ℓ} → List A → Bool
is_some_list [] = false
is_some_list (_ ∷ _) = true

-- The reason that is stored with a run that stays queued.
unfoldable pub queue_reason : Run → List Candidate → List Snapshot → String
queue_reason run candidates snapshots =
    if run.requires_artifacts
      && not (is_some_list candidates)
      && is_some_list (filter (record run { requires_artifacts = false }) snapshots)
    then "等待支持产物采集的执行代理，请将兼容节点升级至具备 run_artifacts_v1 能力的版本"
    else "等待满足运行环境、标签、资源和并发要求的在线服务器"

-- The deadline test of `ScheduleOne`.
abbrev pub overdue : Run → Time → Bool
overdue run now =
    ltb_ℤ (pos 0) run.max_wait_seconds
    && not (before now (add run.queued_at (seconds run.max_wait_seconds)))

module _ (stores : Stores) where
  open stores use {State}

  pub record Service : Type 0 where
    pub world : State
    pub queue : Queue
