-- ===== src/Task.antt =====
-- internal/task/model.go: a run of a task and its states.
pub mod Usage
pub mod Events
pub mod Cron
pub mod Reconcile
mod Tests
use konzhitai.Prelude.{Bool, true, false, String, Map, Option, Eq, decide}
use konzhitai.Prelude.Int.{ℤ}
use konzhitai.Clock.{Time}

pub data RunState : Type 0 where
  queued scheduling assigned syncing running succeeded failed timed_out cancelled expired unknown :
      RunState

-- `RunState.Terminal`
abbrev pub terminal : RunState → Bool
terminal RunState.succeeded = true
terminal RunState.failed = true
terminal RunState.timed_out = true
terminal RunState.cancelled = true
terminal RunState.expired = true
terminal _ = false

unfoldable pub RunState_discrete : Discrete RunState
RunState_discrete = hlevel

instance abbrev pub state_eq : Eq RunState
state_eq = record { beq = λ a b. decide (RunState_discrete a b) }

pub data TriggerType : Type 0 where
  manual schedule retry : TriggerType

pub record Resources : Type 0 where
  pub cpu_millicores : ℤ
  pub memory_bytes : ℤ
  pub disk_bytes : ℤ

pub record RetryPolicy : Type 0 where
  pub max_retries : ℤ
  pub backoff_seconds : ℤ

-- `Run`, without the parameter values, which nothing here looks into.
pub record Run : Type 0 where
  pub requires_artifacts : Bool
  pub id : String
  pub definition_id : String
  pub script_version_id : String
  pub trigger_type : TriggerType
  pub state : RunState
  pub required_labels : Map String
  pub required_runtime : String
  pub priority : ℤ
  pub resources : Resources
  pub max_concurrency : ℤ
  pub timeout_seconds : ℤ
  pub max_wait_seconds : ℤ
  pub retry_policy : RetryPolicy
  pub idempotent : Bool
  pub scheduled_for : Option Time
  pub queued_at : Time
  pub created_at : Time
