-- ===== src/Upgrade/Service/Cancels.antt =====
-- What `Cancel` of internal/agentupgrade/service.go makes of a plan.
use konzhitai.Prelude.{
  ◌≡◌, ◌≢◌, refl, ◌⊎◌, ◌↔◌, inl, inr, Bool, true, false, not, ◌&&◌, ◌||◌, List, [], ◌∷◌, arith,
  nat_eq, all, ◌==◌, string_eq, Bool-cases, if◌then◌else◌,
}
use konzhitai.Clock.{Time}
use konzhitai.Upgrade.Types.{
  Plan, PlanStatus, Target, TargetStatus, target_status_eq, TargetStatus_discrete,
  terminal_target_status, all_targets_terminal,
}
use konzhitai.Upgrade.Service.Control.{cancelled_plan, cancel_targets, any_started, cancelled_at}

-- What a cancellation makes of the targets: the waiting ones are cancelled, the others stay.
abbrev pub Cancels : List Target → List Target → Type 0
Cancels [] [] = Unit
Cancels (t ∷ ts) (u ∷ us) =
    (((t.status ≡ TargetStatus.waiting) × (u.status ≡ TargetStatus.cancelled) × (u.id ≡ t.id))
      ⊎ ((t.status ≢ TargetStatus.waiting) × (u ≡ t)))
    × Cancels ts us
Cancels _ _ = ⊥

cancel_targets-Cancels : (now : Time) (ts : List Target) → Cancels ts (cancel_targets now ts)
unfolding cancel_targets
cancel_targets-Cancels now [] = tt
cancel_targets-Cancels now (t ∷ ts) = elim (TargetStatus_discrete t.status TargetStatus.waiting) [
  | yes e ↦ ground (arith, cancel_targets-Cancels now ts)
  | no ne ↦ ground (arith, cancel_targets-Cancels now ts)
]

-- The test of one target, before and after.
terminal_one :
    (now : Time) (t : Target) (x : TargetStatus)
    → t.status ≡ x
    → terminal_target_status
        (if t.status == TargetStatus.waiting then cancelled_at now t else t).status
      ≡ not (not (t.status == TargetStatus.waiting) && not (terminal_target_status t.status))
unfolding TargetStatus_discrete
terminal_one now t TargetStatus.waiting e = rw e refl
terminal_one now t TargetStatus.draining e = rw e refl
terminal_one now t TargetStatus.downloading e = rw e refl
terminal_one now t TargetStatus.verifying e = rw e refl
terminal_one now t TargetStatus.installing e = rw e refl
terminal_one now t TargetStatus.reconnecting e = rw e refl
terminal_one now t TargetStatus.health_checking e = rw e refl
terminal_one now t TargetStatus.succeeded e = rw e refl
terminal_one now t TargetStatus.rolling_back e = rw e refl
terminal_one now t TargetStatus.rolled_back e = rw e refl
terminal_one now t TargetStatus.manual_intervention e = rw e refl
terminal_one now t TargetStatus.cancelled e = rw e refl

de_morgan : (a b : Bool) → (not a && not b) ≡ not (a || b)
de_morgan true b = refl
de_morgan false b = refl

terminal_after :
    (now : Time) (ts : List Target)
    → all (λ t. terminal_target_status t.status) (cancel_targets now ts) ≡ not (any_started ts)
unfolding any_started cancel_targets
terminal_after now [] = refl
terminal_after now (t ∷ ts) =
    rw (terminal_one now t t.status refl, terminal_after now ts) (de_morgan _ _)

-- `Cancel` cancels every waiting target and leaves the others as they are. The plan ends as cancelled
-- exactly if all its targets are then at an end; else it is paused, and marked so that the
-- coordinator finishes the targets that had started.
pub cancelled_plan-targets :
    (now : Time) (plan : Plan)
    → Cancels plan.targets (cancelled_plan now plan).targets
      × ((cancelled_plan now plan).cancel_requested ≡ true)
      × (((cancelled_plan now plan).status ≡ PlanStatus.cancelled)
          ↔ (all_targets_terminal (cancelled_plan now plan) ≡ true))
      × ((cancelled_plan now plan).status ≢ PlanStatus.cancelled
          → (cancelled_plan now plan).status ≡ PlanStatus.paused)
unfolding cancelled_plan
cancelled_plan-targets now plan = elim (Bool-cases (any_started plan.targets)) [
  | inl busy ↦ rw busy (
    cancel_targets-Cancels now plan.targets,
    refl,
    (λ h. ground arith, λ h. ground (arith, terminal_after now plan.targets)),
    λ _. refl,
  )
  | inr idle ↦ rw idle (
    cancel_targets-Cancels now plan.targets,
    refl,
    (λ h. ground (arith, terminal_after now plan.targets), λ h. refl),
    λ h. absurd (h refl),
  )
]
