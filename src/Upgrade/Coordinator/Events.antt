-- ===== src/Upgrade/Coordinator/Events.antt =====
-- `Coordinator.ApplyUpgradeEvent` and `Coordinator.ObserveHeartbeat`.
use konzhitai.Prelude.{
  ℕ, suc, Bool, true, false, not, ◌&&◌, ◌||◌, String, Option, none, some, List, [], ◌∷◌,
  if◌then◌else◌, ◌==◌, ◌!=◌, nat_eq, string_eq, Result, ok, err,
}
use konzhitai.Prelude.Actions.{Action, ◌>>=◌, ◌>>◌, give, fail, lift, ignore}
use konzhitai.Clock.{Time, is_zero}
use konzhitai.Upgrade.Types.{
  Plan, Target, TargetStatus, target_status_eq, UpgradeEvent, UpgradeStage, Error,
}
use konzhitai.Upgrade.Rollback.{rollback_batch, rollback_command, paused_for}
use konzhitai.Upgrade.Coordinator.{Stores, forward_transition, target_status_for_stage}
use konzhitai.Upgrade.Coordinator.Scan.{with_target, send_all}

-- The first target with these three ids, and its index.
abbrev pub match_from : ℕ → List Target → String → String → String → Option (ℕ × Target)
match_from i [] server_id target_id command_id = none
match_from i (t ∷ ts) server_id target_id command_id =
    let rest = match_from (suc i) ts server_id target_id command_id in
    if t.id == target_id && t.server_id == server_id && t.command_id == command_id
    then some (i, t)
    else rest

-- The heartbeat of an agent, as far as the coordinator reads it.
pub record Heartbeat : Type 0 where
  pub server_id : String
  pub agent_version : String
  pub upgrade : Option (String × String)

-- What an event other than a failure does to its target.
pub data Change : Type 0 where
  record_only ignored : Change
  refused : Change
  moves : TargetStatus → Change

abbrev pub is_reconnect : UpgradeStage → Bool
is_reconnect UpgradeStage.reconnecting = true
is_reconnect UpgradeStage.succeeded = true
is_reconnect _ = false

unfoldable pub change_of : TargetStatus → UpgradeStage → Change
change_of status stage =
    if status == TargetStatus.rolling_back && is_reconnect stage
    then record_only
    else elim (target_status_for_stage stage) [
      | none ↦ refused
      | some next ↦
          if status == next
          then record_only
          else if not (forward_transition status next)
          then ignored
          else moves next
    ]

module _ (stores : Stores) where
  open stores use {State}

  abbrev B : Type 0 → Type 0
  B = Action State Error

  -- `matchTarget`; every failure reads as `ErrTargetNotFound`.
  abbrev found_in :
      String → String → String → Result Error (Option Plan) → Option (Plan × ℕ × Target)
  found_in server_id target_id command_id (ok (some plan)) =
      elim (match_from 0 plan.targets server_id target_id command_id) [
        | none ↦ none
        | some (i, t) ↦ some (plan, i, t)
      ]
  found_in server_id target_id command_id _ = none

  unfoldable pub match_target :
      String → String → String → State → Option (Plan × ℕ × Target) × State
  match_target server_id target_id command_id s =
      let (r, s') = stores.active_plan s in (found_in server_id target_id command_id r, s')

  -- `tolerateConcurrentUpdate`: a save that lost a race ends the call without an error.
  abbrev or_lost : B (Unit {0}) → Result Error Plan × State → Result Error (Unit {0}) × State
  or_lost next (ok _, s) = next s
  or_lost next (err Error.invalid_transition, s) = (ok tt, s)
  or_lost next (err e, s) = (err e, s)

  abbrev save_then : Plan → B (Unit {0}) → B (Unit {0})
  save_then plan next s = or_lost next (stores.save_plan plan s)

  abbrev persist_event : Plan → Target → String → UpgradeEvent → Time → B (Unit {0})
  persist_event plan t server_id e now = do
    id ← lift stores.new_id
    stores.append_event (record {
      id = id;
      plan_id = plan.id;
      target_id = t.id;
      server_id = server_id;
      command_id = e.command_id;
      stage = e.stage;
      error_code = e.error_code;
      message = e.message;
      occurred_at = if is_zero e.occurred_at then now else e.occurred_at;
    })

  abbrev with_error : TargetStatus → UpgradeEvent → Time → Target → Target
  with_error status e now t = record t {
    status = status;
    error_code = e.error_code;
    error_message = e.message;
    updated_at = now;
  }

  unfoldable pub on_failed : Plan → ℕ → Target → String → UpgradeEvent → Time → B (Unit {0})
  on_failed plan i t server_id e now =
      if e.error_code == "rollback_failed" || t.status == TargetStatus.rolling_back
      then (do
        ignore (stores.set_server_draining server_id true)
        save_then
            (with_target i (with_error TargetStatus.manual_intervention e now t)
              (paused_for "代理回滚失败，需要人工处理" plan))
            (persist_event plan t server_id e now))
      else λ s.
          let (rolled, commands, s') =
            rollback_batch stores.new_id plan t.batch_number t.id e.error_code now s in
          save_then rolled (persist_event plan t server_id e now >> send_all stores commands) s'

  abbrev finish_if : TargetStatus → Time → Target → Target
  finish_if TargetStatus.rolled_back now t = record t { finished_at = some now }
  finish_if _ now t = t

  unfoldable pub on_progress : Plan → ℕ → Target → String → UpgradeEvent → Time → B (Unit {0})
  unfolding change_of
  on_progress plan i t server_id e now = elim (change_of t.status e.stage) [
    | record_only ↦ persist_event plan t server_id e now
    | refused ↦ fail Error.invalid_transition
    | ignored ↦ give tt
    | moves next ↦
        save_then (with_target i (finish_if next now (with_error next e now t)) plan)
          (persist_event plan t server_id e now)
  ]

  abbrev is_failed : UpgradeStage → Bool
  is_failed UpgradeStage.failed = true
  is_failed _ = false

  -- `ApplyUpgradeEvent`
  unfoldable pub apply_upgrade_event : String → UpgradeEvent → B (Unit {0})
  unfolding match_target on_failed on_progress
  apply_upgrade_event server_id e = do
    found ← lift (match_target server_id e.target_id e.command_id)
    elim found [
      | none ↦ give tt
      | some (plan, i, t) ↦ (do
        now ← lift stores.now
        if is_failed e.stage
            then on_failed plan i t server_id e now
            else on_progress plan i t server_id e now)
    ]

  abbrev save : Plan → B (Unit {0})
  save plan = stores.save_plan plan >> give tt

  abbrev reconnected_wrong : Plan → ℕ → Target → Time → B (Unit {0})
  reconnected_wrong plan i t now = do
    id ← lift stores.new_id
    let u : Target = record t {
      status = TargetStatus.rolling_back;
      command_id = id;
      updated_at = now;
    } in
        let paused = with_target i u (paused_for "代理重连版本不一致，正在回滚" plan) in
        (do
          save paused
          stores.send (record { server_id = t.server_id; command = rollback_command paused u }))

  unfoldable pub on_heartbeat : Plan → ℕ → Target → String → Time → B (Unit {0})
  on_heartbeat plan i t version now =
      if t.status == TargetStatus.rolling_back
      then (if version != t.source_version
          then give tt
          else save (
              with_target i
                (record t {
                  status = TargetStatus.rolled_back;
                  updated_at = now;
                  finished_at = some now;
                })
                plan))
      else if t.status != TargetStatus.reconnecting
      then give tt
      else if version != t.target_version
      then reconnected_wrong plan i t now
      else save (
          with_target i (record t { status = TargetStatus.health_checking; updated_at = now }) plan)

  -- `ObserveHeartbeat`
  unfoldable pub observe_heartbeat : Heartbeat → B (Unit {0})
  unfolding match_target on_heartbeat
  observe_heartbeat h = elim h.upgrade [
    | none ↦ give tt
    | some (target_id, command_id) ↦ (do
      found ← lift (match_target h.server_id target_id command_id)
      elim found [
        | none ↦ give tt
        | some (plan, i, t) ↦ (do now ← lift stores.now; on_heartbeat plan i t h.agent_version now)
      ])
  ]
