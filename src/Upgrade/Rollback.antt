-- ===== src/Upgrade/Rollback.antt =====
-- `rollbackBatch` of internal/agentupgrade/coordinator.go: the batch that failed goes back to its
-- source versions. `S` is the state from which `newID` draws.
use konzhitai.Prelude.{
  ℕ, ◌≡◌, ◌≢◌, refl, ◌⊎◌, inl, inr, Bool, true, false, ◌&&◌, ◌||◌, String, none, some, List, [],
  ◌∷◌, arith, if◌then◌else◌, ◌==◌, ◌!=◌, nat_eq, string_eq, Bool-cases,
}
use konzhitai.Prelude.Int.{pos}
use konzhitai.Clock.{Time, seconds}
use konzhitai.Upgrade.Types.{
  Plan, PlanStatus, Target, TargetStatus, target_status_eq, TargetStatus_discrete, UpgradeCommand,
  UpgradeAction,
}

-- `sentCommand`
pub record Sent : Type 0 where
  pub server_id : String
  pub command : UpgradeCommand

unfoldable pub rollback_command : Plan → Target → UpgradeCommand
rollback_command plan target = record {
  command_id = target.command_id;
  plan_id = plan.id;
  target_id = target.id;
  action = UpgradeAction.rollback;
  source_version = target.target_version;
  target_version = target.source_version;
  install_command_id = target.install_command_id;
  download_url = "";
  file_name = "";
  byte_size = pos 0;
  sha256 = "";
  reconnect_timeout = seconds plan.reconnect_timeout_seconds;
}

-- The states that a rollback of the batch leaves as they are.
abbrev pub settled : TargetStatus → Bool
settled s =
    s == TargetStatus.cancelled
    || s == TargetStatus.rolling_back
    || s == TargetStatus.rolled_back
    || s == TargetStatus.manual_intervention

abbrev pub uninstalled : String → String → Target → Bool
uninstalled failed_id code t =
    t.status == TargetStatus.waiting
    || t.status == TargetStatus.draining
    || (t.id == failed_id
        && (t.status == TargetStatus.downloading
            || t.status == TargetStatus.verifying
            || code == "apply_start_failed"
            || code == "apply_rolled_back"
            || code == "stage_failed"))

abbrev pub rolled_back_at : Time → Target → Target
rolled_back_at now t = record t {
  status = TargetStatus.rolled_back;
  updated_at = now;
  finished_at = some now;
}

abbrev pub rolling_back_at : Time → String → Target → Target
rolling_back_at now command_id t = record t {
  status = TargetStatus.rolling_back;
  command_id = command_id;
  updated_at = now;
  finished_at = none;
}

abbrev pub paused_for : String → Plan → Plan
paused_for reason plan = record plan { status = PlanStatus.paused; pause_reason = reason }

-- What a rollback does not touch: a cancelled target, one that is or was rolled back, and one that is left to an operator.
pub data Settled : TargetStatus → Type 0 where
  is_cancelled : Settled TargetStatus.cancelled
  is_rolling_back : Settled TargetStatus.rolling_back
  is_rolled_back : Settled TargetStatus.rolled_back
  is_left : Settled TargetStatus.manual_intervention

Settled-settled : (x : TargetStatus) → Settled x → settled x ≡ true
unfolding TargetStatus_discrete
Settled-settled _ Settled.is_cancelled = refl
Settled-settled _ Settled.is_rolling_back = refl
Settled-settled _ Settled.is_rolled_back = refl
Settled-settled _ Settled.is_left = refl

pub moves_unsettled : (x : TargetStatus) → settled x ≡ false → Settled x → ⊥
moves_unsettled x h p = clash (Settled-settled x p)
  where
    clash : settled x ≡ true → ⊥
    clash g = ground (arith, g, h)

unmoved : (t : Target) {u : Target} → settled t.status ≡ false → Settled t.status → u ≡ t
unmoved t h p = absurd (moves_unsettled t.status h p)

settled-Settled : (x : TargetStatus) → settled x ≡ true → Settled x
unfolding TargetStatus_discrete
settled-Settled TargetStatus.cancelled h = Settled.is_cancelled
settled-Settled TargetStatus.rolling_back h = Settled.is_rolling_back
settled-Settled TargetStatus.rolled_back h = Settled.is_rolled_back
settled-Settled TargetStatus.manual_intervention h = Settled.is_left
settled-Settled x h = absurd (ground (arith, h))

module _ {S : Type 0} (new_id : S → String × S) where
  -- The loop, which returns the targets, the commands and the state.
  unfoldable pub rollback_targets :
      Plan → ℕ → String → String → Time → List Target → S → List Target × List Sent × S
  unfolding rollback_command
  rollback_targets plan batch failed_id code now [] s = ([], [], s)
  rollback_targets plan batch failed_id code now (t ∷ ts) s =
      let rest = rollback_targets plan batch failed_id code now ts in
      if t.batch_number != batch || settled t.status
      then (let (us, cs, s') = rest s in (t ∷ us, cs, s'))
      else if uninstalled failed_id code t
      then (let (us, cs, s') = rest s in (rolled_back_at now t ∷ us, cs, s'))
      else (let (id, s1) = new_id s in
          let u = rolling_back_at now id t in
          let (us, cs, s') = rest s1 in
          (u ∷ us, record { server_id = t.server_id; command = rollback_command plan u } ∷ cs, s'))

  unfoldable pub rollback_batch : Plan → ℕ → String → String → Time → S → Plan × List Sent × S
  unfolding rollback_targets
  rollback_batch plan batch failed_id code now s =
      let paused = paused_for "当前批次升级失败，正在回滚" plan in
      let (targets, commands, s') =
        rollback_targets paused batch failed_id code now plan.targets s in
      (record paused { targets = targets }, commands, s')

  -- What becomes of the targets, one by one: those of other batches and the settled ones stay, the
  -- others end settled.
  abbrev pub RollsBack : ℕ → List Target → List Target → Type 0
  RollsBack batch [] [] = Unit
  RollsBack batch (t ∷ ts) (u ∷ us) =
      (((t.batch_number ≢ batch) × (u ≡ t))
        ⊎ ((u.batch_number ≡ batch)
            × Settled u.status
            × (u.id ≡ t.id)
            × (Settled t.status → u ≡ t)))
      × RollsBack batch ts us
  RollsBack batch _ _ = ⊥

  rollback_targets-RollsBack :
      (plan : Plan) (batch : ℕ) (failed_id code : String) (now : Time) (ts : List Target) (s : S)
      → RollsBack batch ts (rollback_targets plan batch failed_id code now ts s).0
  unfolding rollback_targets
  rollback_targets-RollsBack plan batch failed_id code now [] s = tt
  rollback_targets-RollsBack plan batch failed_id code now (t ∷ ts) s =
      let ih = rollback_targets-RollsBack plan batch failed_id code now ts in
      elim (Bool-cases (t.batch_number == batch)) [
        | inr other ↦ rw other (inl (ground arith, refl), ih s)
        | inl same ↦ rw same (elim (Bool-cases (settled t.status)) [
          | inl still ↦
              rw still (inr (ground arith, settled-Settled t.status still, refl, λ _. refl), ih s)
          | inr moves ↦ rw moves (elim (Bool-cases (uninstalled failed_id code t)) [
            | inl fresh ↦
                rw fresh (inr (ground arith, Settled.is_rolled_back, refl, unmoved t moves), ih s)
            | inr started ↦ rw started (
              inr (ground arith, Settled.is_rolling_back, refl, unmoved t moves),
              ih (new_id s).1,
            )
          ])
        ])
      ]

  -- After `rollbackBatch` the plan is paused; every target of the batch is cancelled, rolled back, rolling
  -- back or left to an operator, those that were so stay exactly as they were, and so do the targets of other
  -- batches.
  pub rollback_batch-settles :
      (plan : Plan) (batch : ℕ) (failed_id code : String) (now : Time) (s : S)
      → let (p, _, _) = rollback_batch plan batch failed_id code now s in
        (p.status ≡ PlanStatus.paused) × RollsBack batch plan.targets p.targets
  unfolding rollback_batch
  rollback_batch-settles plan batch failed_id code now s = (
    refl,
    rollback_targets-RollsBack (paused_for "当前批次升级失败，正在回滚" plan) batch failed_id code now
        plan.targets s,
  )
