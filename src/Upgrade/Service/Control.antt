-- ===== src/Upgrade/Service/Control.antt =====
-- `Pause`, `Resume`, `Cancel` and `RetryTarget` of internal/agentupgrade/service.go.
use konzhitai.Prelude.{
  Bool, true, not, ◌&&◌, ◌||◌, String, Option, none, some, List, [], ◌∷◌, map, any, keep, find,
  contains, trim_space, if◌then◌else◌, ◌==◌, ◌!=◌, string_eq,
}
use konzhitai.Prelude.Actions.{Action, ◌>>=◌, ◌>>◌, give, fail, lift, guard}
use konzhitai.Prelude.Int.{pos, ◌+ℤ◌}
use konzhitai.Clock.{Time}
use konzhitai.Upgrade.Types.{
  Plan, PlanStatus, plan_status_eq, Target, TargetStatus, target_status_eq, ReleaseInfo, ServerInfo,
  Error, terminal_target_status,
}
use konzhitai.Upgrade.Service.{Repository, self_upgrade, has_artifact, usable, reachable}

abbrev in_start : Target → Bool
in_start t = t.status == TargetStatus.waiting || t.status == TargetStatus.draining

-- The servers by id: of two with one id the later wins.
abbrev by_id : String → List ServerInfo → Option ServerInfo
by_id id [] = none
by_id id (s ∷ ss) = elim (by_id id ss) [
  | some t ↦ some t
  | none ↦ if s.id == id then some s else none
]

unfoldable pub resume_error : ReleaseInfo → Target → ServerInfo → Option Error
resume_error release t server =
    if not (reachable server)
    then some Error.server_ineligible
    else if not (contains server.capabilities self_upgrade)
    then some Error.upgrade_unsupported
    else if server.agent_version != t.source_version
    then some Error.upgrade_source_changed
    else if not (has_artifact release server.agent_os server.agent_arch)
    then some Error.artifact_unavailable
    else none

-- The second loop of `Resume`.
unfoldable pub resume_errors : ReleaseInfo → List ServerInfo → List Target → Option Error
unfolding resume_error
resume_errors release servers [] = none
resume_errors release servers (t ∷ ts) =
    let rest = resume_errors release servers ts in
    if not (in_start t) then rest else elim (by_id t.server_id servers) [
      | none ↦ some Error.server_ineligible
      | some server ↦ elim (resume_error release t server) [ some e ↦ some e | none ↦ rest ]
    ]

abbrev pub cancelled_at : Time → Target → Target
cancelled_at now t = record t {
  status = TargetStatus.cancelled;
  updated_at = now;
  finished_at = some now;
}

unfoldable pub cancel_targets : Time → List Target → List Target
cancel_targets now [] = []
cancel_targets now (t ∷ ts) =
    (if t.status == TargetStatus.waiting then cancelled_at now t else t) ∷ cancel_targets now ts

-- `started` after the loop: a target that is neither waiting nor at an end.
unfoldable pub any_started : List Target → Bool
any_started ts =
    any (λ t. not (t.status == TargetStatus.waiting) && not (terminal_target_status t.status)) ts

unfoldable pub cancelled_plan : Time → Plan → Plan
unfolding cancel_targets any_started
cancelled_plan now plan =
    if any_started plan.targets
    then record plan {
      status = PlanStatus.paused;
      cancel_requested = true;
      pause_reason = "计划已取消，正在完成已开始节点";
      targets = cancel_targets now plan.targets;
    }
    else record plan {
      status = PlanStatus.cancelled;
      cancel_requested = true;
      finished_at = some now;
      targets = cancel_targets now plan.targets;
    }

abbrev under_way : TargetStatus → Bool
under_way s =
    s == TargetStatus.draining
    || s == TargetStatus.downloading
    || s == TargetStatus.verifying
    || s == TargetStatus.installing
    || s == TargetStatus.reconnecting
    || s == TargetStatus.health_checking

unfoldable pub retried : Target → String → Time → Target
retried t command_id now = record t {
  status = TargetStatus.draining;
  command_id = command_id;
  install_command_id = command_id;
  attempts = t.attempts +ℤ pos 1;
  error_code = "";
  error_message = "";
  finished_at = none;
  updated_at = now;
}

-- The write goes to the first target with the id, at which the loop returns.
abbrev replace_first : String → Target → List Target → List Target
replace_first id u [] = []
replace_first id u (t ∷ ts) = if t.id == id then u ∷ ts else t ∷ replace_first id u ts

module _ (repository : Repository) where
  open repository use {State}

  abbrev C : Type 0 → Type 0
  C = Action State Error

  unfoldable pub pause : String → String → C Plan
  pause id reason = do
    plan ← repository.plan id
    if plan.status == PlanStatus.paused
        then give plan
        else if plan.status != PlanStatus.pending && plan.status != PlanStatus.running
        then fail Error.invalid_transition
        else repository.save_plan
            (record plan { status = PlanStatus.paused; pause_reason = trim_space reason })

  abbrev or_error : {A : Type 0} → Option Error → C A → C A
  or_error none m = m
  or_error (some e) m = fail e

  unfoldable pub resume_paused : Plan → C Plan
  unfolding resume_errors
  resume_paused plan = do
    release ← repository.release plan.target_release_id
    guard (not (usable release)) Error.upgrade_unsupported
    servers ← repository.servers (map (λ t. t.server_id) (keep in_start plan.targets))
    or_error (resume_errors release servers plan.targets)
        (repository.save_plan (record plan { status = PlanStatus.running; pause_reason = "" }))

  unfoldable pub resume : String → C Plan
  unfolding resume_paused
  resume id = do
    plan ← repository.plan id
    if plan.status == PlanStatus.running || plan.status == PlanStatus.pending
        then give plan
        else if plan.status != PlanStatus.paused
        then fail Error.invalid_transition
        else if plan.cancel_requested
        then fail Error.invalid_transition
        else resume_paused plan

  unfoldable pub cancel : String → C Plan
  unfolding cancelled_plan
  cancel id = do
    plan ← repository.plan id
    if plan.status == PlanStatus.cancelled || plan.cancel_requested
        then give plan
        else if plan.status != PlanStatus.pending
            && plan.status != PlanStatus.running
            && plan.status != PlanStatus.paused
        then fail Error.invalid_transition
        else (do now ← lift repository.now; repository.save_plan (cancelled_plan now plan))

  abbrev checked : Target → List ServerInfo → Option Error
  checked t (server ∷ []) =
      if server.id != t.server_id
      then some Error.server_ineligible
      else if server.agent_version != t.source_version
      then some Error.upgrade_source_changed
      else none
  checked t _ = some Error.server_ineligible

  unfoldable pub retry_found : Plan → Target → C Plan
  unfolding retried
  retry_found plan t =
      if under_way t.status
      then give plan
      else if t.status != TargetStatus.rolled_back && t.status != TargetStatus.manual_intervention
      then fail Error.invalid_transition
      else (do
        servers ← repository.servers (t.server_id ∷ [])
        or_error (checked t servers) (do
          command_id ← lift repository.new_id
          now ← lift repository.now
          repository.save_plan (record plan {
            status = PlanStatus.running;
            pause_reason = "";
            targets = replace_first t.id (retried t command_id now) plan.targets;
          })))

  unfoldable pub retry_target : String → String → C Plan
  unfolding retry_found
  retry_target plan_id target_id = do
    plan ← repository.plan plan_id
    guard plan.cancel_requested Error.invalid_transition
    elim (find (λ t. t.id == target_id) plan.targets) [
      | none ↦ fail Error.target_not_found
      | some t ↦ retry_found plan t
    ]
