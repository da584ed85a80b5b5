-- ===== src/Upgrade/Coordinator/Scan.antt =====
-- `Coordinator.Scan`: one pass over the targets of the current batch, then the end of the batch, the
-- plan is saved, the commands are sent.
use konzhitai.Prelude.{
  ℕ, zero, suc, ◌+◌, Bool, true, false, not, ◌&&◌, ◌||◌, String, Option, none, some, List, [], ◌∷◌,
  ◌++◌, length, if◌then◌else◌, ◌==◌, ◌!=◌, nat_eq, string_eq,
}
use konzhitai.Prelude.Actions.{Action, ◌>>=◌, ◌>>◌, give, fail, lift, when}
use konzhitai.Prelude.Int.{pos, ltb_ℤ, leb_ℤ, ◌+ℤ◌}
use konzhitai.Clock.{Time, seconds, sub, after}
use konzhitai.Upgrade.Types.{
  Plan, PlanStatus, plan_status_eq, Target, TargetStatus, target_status_eq, ServerRuntime,
  ArtifactInfo, Error, all_targets_terminal, batch_succeeded, has_batch,
}
use konzhitai.Upgrade.Rollback.{Sent, rollback_batch, rollback_command, paused_for}
use konzhitai.Upgrade.Coordinator.{
  Stores, get_elem?, set_elem, runtime_available, without_batch_commands, matching_artifact,
  install_command,
}

-- The variables of the pass.
pub record Pass : Type 0 where
  pub plan : Plan
  pub changed : Bool
  pub commands : List Sent
  pub may_start : Bool

abbrev pub with_target : ℕ → Target → Plan → Plan
with_target i t plan = record plan { targets = set_elem plan.targets i t }

abbrev pub may_start_target : Plan → Bool
may_start_target plan =
    (plan.status == PlanStatus.running || plan.status == PlanStatus.pending)
    && not plan.cancel_requested

abbrev pub drifted : Time → Target → Target
drifted now t = record t {
  status = TargetStatus.manual_intervention;
  error_code = "source_version_changed";
  error_message = "服务器当前版本已偏离该升级计划的原始版本，不能继续执行";
  updated_at = now;
  finished_at = some now;
}

-- `markSourceVersionChanged`, after which nothing starts.
unfoldable pub mark_source_version_changed : Time → ℕ → Target → Pass → Pass
mark_source_version_changed now i t k = record k {
  plan = with_target i (drifted now t) (paused_for "服务器当前版本已偏离该升级计划的原始版本，不能继续执行" k.plan);
  changed = true;
  may_start = false;
}

-- `target.StartedAt != nil && now.Sub(*target.StartedAt) > ...`
abbrev pub drain_expired : Plan → Target → Time → Bool
drain_expired plan t now = elim t.started_at [
  | none ↦ false
  | some start ↦ ltb_ℤ (seconds plan.drain_timeout_seconds) (sub now start)
]

abbrev pub unready : ServerRuntime → Bool
unready r =
    not r.enabled
    || (r.status != "online" && r.status != "draining")
    || ltb_ℤ (pos 0) r.running_tasks

abbrev pub stale : ServerRuntime → Target → Bool
stale r t = elim r.last_seen_at [ none ↦ true | some seen ↦ not (after seen t.updated_at) ]

abbrev pub add_command : Sent → Pass → Pass
add_command c k = record k { commands = k.commands ++ c ∷ [] }

unfoldable pub on_waiting : Time → ℕ → Target → Pass → Pass
on_waiting now i t k = if not k.may_start then k else record k {
  plan =
      with_target i
        (record t { status = TargetStatus.draining; started_at = some now; updated_at = now })
        k.plan;
  changed = true;
}

abbrev pub given_up : Time → Target → Target
given_up now t = record t {
  status = TargetStatus.manual_intervention;
  error_code = "rollback_timeout";
  error_message = "代理回滚后未在时限内重连";
  updated_at = now;
  finished_at = some now;
}

unfoldable pub on_rolling_back : Time → ℕ → Target → Pass → Pass
on_rolling_back now i t k =
    if leb_ℤ (seconds k.plan.reconnect_timeout_seconds) (sub now t.updated_at)
    then record k {
      plan = with_target i (given_up now t) (paused_for "代理回滚超时，需要人工处理" k.plan);
      changed = true;
    }
    else add_command (record { server_id = t.server_id; command = rollback_command k.plan t }) k

unfoldable pub close_batch : Time → Pass → Pass
close_batch now k =
    if k.plan.cancel_requested && all_targets_terminal k.plan
    then record k {
      plan = record k.plan { status = PlanStatus.cancelled; finished_at = some now };
      changed = true;
    }
    else if k.may_start && batch_succeeded k.plan k.plan.current_batch
    then (if has_batch k.plan (k.plan.current_batch + 1)
        then record k {
          plan = record k.plan { current_batch = k.plan.current_batch + 1 };
          changed = true;
        }
        else record k {
          plan = record k.plan { status = PlanStatus.succeeded; finished_at = some now };
          changed = true;
        })
    else k

module _ (stores : Stores) where
  open stores use {State}

  abbrev A : Type 0 → Type 0
  A = Action State Error

  abbrev or_unavailable : Option ArtifactInfo → A ArtifactInfo
  or_unavailable none = fail Error.artifact_unavailable
  or_unavailable (some a) = give a

  abbrev pub artifact_for : Pass → ServerRuntime → A ArtifactInfo
  artifact_for k r = do
    release ← stores.release k.plan.target_release_id
    or_unavailable (matching_artifact release.artifacts r.agent_os r.agent_arch)

  abbrev pub start_download : Time → ℕ → Target → Pass → ArtifactInfo → Pass
  start_download now i t k a =
      let u : Target = record t {
        status = TargetStatus.downloading;
        attempts = t.attempts +ℤ pos 1;
        updated_at = now;
      } in
      record k {
        plan = with_target i u k.plan;
        commands =
            k.commands
            ++ record { server_id = t.server_id; command = install_command k.plan u a } ∷ [];
        changed = true;
      }

  unfoldable pub on_draining : Time → ℕ → Target → Pass → A Pass
  on_draining now i t k =
      if not k.may_start && not k.plan.cancel_requested
      then give k
      else if drain_expired k.plan t now
      then give (record k { plan = paused_for "服务器排空超时" k.plan; changed = true })
      else (do
        stores.set_server_draining t.server_id true
        runtime ← stores.server_runtime t.server_id
        (if unready runtime
            then give k
            else if runtime.agent_version != t.source_version
            then give (mark_source_version_changed now i t k)
            else (do a ← artifact_for k runtime; give (start_download now i t k a))))

  -- TargetDownloading, TargetVerifying and TargetInstalling
  unfoldable pub on_installing : Time → ℕ → Target → Pass → A Pass
  on_installing now i t k = do
    runtime ← stores.server_runtime t.server_id
    (if runtime.agent_version != t.source_version && runtime.agent_version != t.target_version
        then give (mark_source_version_changed now i t k)
        else (do
          a ← artifact_for k runtime
          give (
              add_command (record { server_id = t.server_id; command = install_command k.plan t a })
                k)))

  unfoldable pub fail_batch : Time → Target → String → Pass → State → Pass × State
  fail_batch now t code k s =
      let kept = without_batch_commands k.commands k.plan t.batch_number in
      let (plan, commands, s') =
        rollback_batch stores.new_id k.plan t.batch_number t.id code now s in
      (record k { plan = plan; commands = kept ++ commands; changed = true }, s')

  unfoldable pub on_reconnecting : Time → Target → Pass → State → Pass × State
  unfolding fail_batch
  on_reconnecting now t k s =
      if leb_ℤ (seconds k.plan.reconnect_timeout_seconds) (sub now t.updated_at)
      then fail_batch now t "reconnect_timeout" k s
      else (k, s)

  abbrev pub finish_target : Time → ℕ → Target → Pass → Pass
  finish_target now i t k = record k {
    plan =
        with_target i
          (record t { status = TargetStatus.succeeded; updated_at = now; finished_at = some now })
          k.plan;
    changed = true;
  }

  unfoldable pub on_health_checking : Time → ℕ → Target → Pass → A Pass
  unfolding fail_batch
  on_health_checking now i t k = do
    runtime ← stores.server_runtime t.server_id
    (if not (runtime_available runtime t.target_version now)
        then lift (fail_batch now t "health_check_failed" k)
        else if not (leb_ℤ (seconds k.plan.verification_seconds) (sub now t.updated_at))
        then give k
        else if stale runtime t
        then lift (fail_batch now t "health_check_failed" k)
        else (do
          when (not t.source_draining) (stores.set_server_draining t.server_id false)
          give (finish_target now i t k)))

  unfoldable pub on_target : Time → ℕ → Target → Pass → A Pass
  unfolding on_waiting on_draining on_installing on_reconnecting on_health_checking on_rolling_back
  on_target now i t k = elim t.status [
    | TargetStatus.waiting ↦ give (on_waiting now i t k)
    | TargetStatus.draining ↦ on_draining now i t k
    | TargetStatus.downloading ↦ on_installing now i t k
    | TargetStatus.verifying ↦ on_installing now i t k
    | TargetStatus.installing ↦ on_installing now i t k
    | TargetStatus.reconnecting ↦ lift (on_reconnecting now t k)
    | TargetStatus.health_checking ↦ on_health_checking now i t k
    | TargetStatus.rolling_back ↦ give (on_rolling_back now i t k)
    | _ ↦ give k
  ]

  -- The loop body at `index`; the length of the targets never changes.
  unfoldable pub visit : Time → ℕ → Pass → A Pass
  unfolding on_target
  visit now i k = elim (get_elem? k.plan.targets i) [
    | none ↦ give k
    | some t ↦ if t.batch_number != k.plan.current_batch then give k else on_target now i t k
  ]

  unfoldable pub visit_all : Time → ℕ → ℕ → Pass → A Pass
  unfolding visit
  visit_all now zero i k = give k
  visit_all now (suc n) i k = visit now i k >>= λ k'. visit_all now n (suc i) k'

  unfoldable pub send_all : List Sent → A (Unit {0})
  send_all [] = give tt
  send_all (c ∷ cs) = let rest = send_all cs in stores.send c >> rest

  unfoldable pub scan_plan : Plan → A (Unit {0})
  unfolding visit_all close_batch send_all
  scan_plan plan = do
    now ← lift stores.now
    k ←
        visit_all now (length plan.targets) 0 (record {
          plan = plan;
          changed = false;
          commands = [];
          may_start = may_start_target plan;
        })
    let closed = close_batch now k in
        (do when closed.changed (stores.save_plan closed.plan >> give tt); send_all closed.commands)

  abbrev pub active : PlanStatus → Bool
  active s = s == PlanStatus.running || s == PlanStatus.pending || s == PlanStatus.paused

  unfoldable pub scan : A (Unit {0})
  unfolding scan_plan
  scan = stores.active_plan >>= λ found. elim found [
    | none ↦ give tt
    | some plan ↦ if active plan.status then scan_plan plan else give tt
  ]
