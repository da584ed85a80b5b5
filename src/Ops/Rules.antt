-- ===== src/Ops/Rules.antt =====
-- What the rules of internal/ops/rules.go make of a snapshot. The arithmetic of Go's type float64 is a parameter: the
-- percentage that one amount is of another, and its comparison with a number.
use Prim.Native.String.{◌++◌ as text_append}
use konzhitai.Prelude.{
  ℕ, ◌-◌, String, Bool, true, false, not, ◌&&◌, ◌||◌, Option, none, some, List, [], ◌∷◌, ◌++◌,
  if◌then◌else◌, ◌==◌, string_eq,
}
use konzhitai.Prelude.Int.{ℤ, pos, ltb_ℤ}
use konzhitai.Prelude.Sort.{sort}
use konzhitai.Alert.{warning, critical}
use konzhitai.Clock.{Time, before, after, sub}
use konzhitai.Ops.{Evaluation}

pub record ResourceSample : Type 0 where
  pub memory_total_bytes : ℤ
  pub memory_available_bytes : ℤ
  pub disk_total_bytes : ℤ
  pub disk_available_bytes : ℤ
  pub collected_at : Time

pub record ServerObservation : Type 0 where
  pub id : String
  pub name : String
  pub enabled : Bool
  pub draining : Bool
  pub last_seen_at : Option Time
  pub samples : List ResourceSample

pub record RunObservation : Type 0 where
  pub id : String
  pub task_name : String
  pub state : String
  pub queued_at : Time

pub record RuleSnapshot : Type 0 where
  pub servers : List ServerObservation
  pub runs : List RunObservation

-- `offlineThreshold`, `queueThreshold` and `snapshotMaxAge`
abbrev pub offline_threshold : ℕ
offline_threshold = 120_000_000_000

abbrev pub queue_threshold : ℕ
queue_threshold = 600_000_000_000

abbrev pub snapshot_max_age : ℤ
snapshot_max_age = pos 120_000_000_000

-- `float64` as the rules use it.
pub record Floats : Type 1 where
  pub Value : Type 0
  pub percent : ℤ → ℤ → Value
  pub below : Value → ℕ → Bool
  pub above : Value → ℕ → Bool

-- `fmt.Sprintf` with one `%s`.
abbrev filled : String → String → String → String
filled front name back = text_append front (text_append name back)

module _ (floats : Floats) where
  open floats use {Value, percent, below, above}

  -- `evaluateServerAvailability`
  abbrev pub is_offline : Time → Option Time → Bool
  is_offline now none = true
  is_offline now (some seen) = not (after seen (now - offline_threshold))

  unfoldable pub evaluate_server_availability : ServerObservation → Time → Evaluation Value
  evaluate_server_availability server now =
      let bad = server.enabled && is_offline now server.last_seen_at in
      record {
        key = record { code = "agent_offline"; source_type = "server"; source_id = server.id };
        bad = bad;
        good = not bad;
        value = none;
        evaluated_at = now;
        required_consecutive = pos 1;
        sample_based = false;
        event = record {
          resource_type = "server";
          resource_id = server.id;
          code = "agent_offline";
          severity = critical;
          title = "服务器离线";
          message = filled "执行服务器 " server.name " 已超过 2 分钟没有心跳";
        };
      }

  -- `resourceEvaluation`
  abbrev is_some : Option Value → Bool
  is_some none = false
  is_some (some _) = true

  unfoldable pub resource_evaluation :
      ServerObservation → String → String → Option Value → Bool → Bool → Time → ℤ → Evaluation Value
  resource_evaluation server code title value bad good evaluated_at required = record {
    key = record { code = code; source_type = "server"; source_id = server.id };
    bad = bad;
    good = good;
    value = value;
    evaluated_at = evaluated_at;
    required_consecutive = required;
    sample_based = is_some value;
    event = record {
      resource_type = "server";
      resource_id = server.id;
      code = code;
      severity = warning;
      title = title;
      message = filled "执行服务器 " server.name " 的可用资源低于告警阈值";
    };
  }

  -- The two rules of a sample that is not too old.
  abbrev low_rule :
      ServerObservation → String → String → ℕ → ℕ → ℤ → ℤ → Time → List (Evaluation Value)
  unfolding resource_evaluation
  low_rule server code title low high available total at =
      let value = percent available total in
      if ltb_ℤ (pos 0) total
      then resource_evaluation server code title (some value) (below value low) (above value high)
          at (pos 2)
        ∷ []
      else []

  unfoldable pub evaluate_sample :
      ServerObservation → Time → ResourceSample → List (Evaluation Value)
  unfolding low_rule
  evaluate_sample server now sample =
      if after sample.collected_at now || ltb_ℤ snapshot_max_age (sub now sample.collected_at)
      then []
      else low_rule server "memory_low" "服务器可用内存不足" 10 15 sample.memory_available_bytes
          sample.memory_total_bytes sample.collected_at
        ++ low_rule server "disk_low" "服务器可用磁盘不足" 15 20 sample.disk_available_bytes
            sample.disk_total_bytes sample.collected_at

  abbrev evaluate_samples : ServerObservation → Time → List ResourceSample → List (Evaluation Value)
  unfolding evaluate_sample
  evaluate_samples server now [] = []
  evaluate_samples server now (s ∷ ss) =
      evaluate_sample server now s ++ evaluate_samples server now ss

  unfoldable pub evaluate_server : ServerObservation → Time → List (Evaluation Value)
  unfolding evaluate_server_availability resource_evaluation evaluate_samples
  evaluate_server server now =
      evaluate_server_availability server now
      ∷ (if not server.enabled
          then resource_evaluation server "memory_low" "服务器可用内存不足" none false true now (pos 1)
            ∷ resource_evaluation server "disk_low" "服务器可用磁盘不足" none false true now (pos 1)
            ∷ []
          else evaluate_samples server now
              (sort (λ a b. before a.collected_at b.collected_at) server.samples))

  -- The two rules of a run.
  unfoldable pub evaluate_queue : RunObservation → Time → Evaluation Value
  evaluate_queue run now =
      let bad = run.state == "queued" && not (after run.queued_at (now - queue_threshold)) in
      record {
        key = record { code = "queue_timeout"; source_type = "run"; source_id = run.id };
        bad = bad;
        good = not bad;
        value = none;
        evaluated_at = now;
        required_consecutive = pos 1;
        sample_based = false;
        event = record {
          resource_type = "run";
          resource_id = run.id;
          code = "queue_timeout";
          severity = warning;
          title = "任务排队超过 10 分钟";
          message = filled "任务 " run.task_name " 正在等待可用服务器";
        };
      }

  unfoldable pub evaluate_failure : RunObservation → Time → Evaluation Value
  evaluate_failure run now = record {
    key = record { code = "task_failed"; source_type = "run"; source_id = run.id };
    bad = true;
    good = false;
    value = none;
    evaluated_at = now;
    required_consecutive = pos 1;
    sample_based = false;
    event = record {
      resource_type = "run";
      resource_id = run.id;
      code = "task_failed";
      severity = critical;
      title = if run.state == "timed_out" then "任务执行超时" else "任务执行失败";
      message = filled "任务 " run.task_name " 已结束，请在执行记录中查看状态";
    };
  }

  unfoldable pub evaluate_run : RunObservation → Time → List (Evaluation Value)
  unfolding evaluate_queue evaluate_failure
  evaluate_run run now =
      evaluate_queue run now
      ∷ (if run.state == "failed" || run.state == "timed_out"
          then evaluate_failure run now ∷ []
          else [])

  -- `evaluateSnapshot`
  abbrev evaluate_servers : List ServerObservation → Time → List (Evaluation Value)
  unfolding evaluate_server
  evaluate_servers [] now = []
  evaluate_servers (s ∷ ss) now = evaluate_server s now ++ evaluate_servers ss now

  abbrev evaluate_runs : List RunObservation → Time → List (Evaluation Value)
  unfolding evaluate_run
  evaluate_runs [] now = []
  evaluate_runs (r ∷ rs) now = evaluate_run r now ++ evaluate_runs rs now

  unfoldable pub evaluate_snapshot : RuleSnapshot → Time → List (Evaluation Value)
  unfolding evaluate_servers evaluate_runs
  evaluate_snapshot snapshot now =
      evaluate_servers snapshot.servers now ++ evaluate_runs snapshot.runs now
