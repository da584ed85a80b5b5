-- ===== src/Upgrade/Coordinator/Closing.antt =====
-- The end of `Coordinator.Scan`: when a plan goes on to its next batch, and when it ends.
use konzhitai.Prelude.{
  ℕ, ◌+◌, ◌≡◌, refl, ◌⊎◌, inl, inr, Bool, true, false, ◌&&◌, some, List, [], ◌∷◌, All, any, arith,
  ◌==◌, nat_eq, if◌then◌else◌, Bool-cases,
}
use konzhitai.Clock.{Time}
use konzhitai.Upgrade.Types.{
  Plan, PlanStatus, Target, TargetStatus, target_status_eq, all_targets_terminal, batch_succeeded,
  batch_succeeded_from, has_batch,
}
use konzhitai.Upgrade.Coordinator.Scan.{Pass, close_batch}

-- Every target of the batch has succeeded, and there is one.
abbrev pub Succeeded : ℕ → List Target → Type 0
Succeeded batch ts =
    All (λ t. t.batch_number ≡ batch → t.status ≡ TargetStatus.succeeded) ts
    × (any (λ t. t.batch_number == batch) ts ≡ true)

succeeded_from :
    (found : Bool) (batch : ℕ) (ts : List Target)
    → batch_succeeded_from found batch ts ≡ true
    → All (λ t. t.batch_number ≡ batch → t.status ≡ TargetStatus.succeeded) ts
      × ((found ≡ true) ⊎ (any (λ t. t.batch_number == batch) ts ≡ true))
unfolding batch_succeeded_from
succeeded_from found batch [] h = (tt, inl h)
succeeded_from found batch (t ∷ ts) h = elim (Bool-cases (t.batch_number == batch)) [
  | inl same ↦
      let (rest, _) = succeeded_from true batch ts (ground arith) in
      ((λ _. ground arith, rest), inr (ground arith))
  | inr other ↦
      let (rest, f) = succeeded_from found batch ts (ground arith) in
      ((λ e. absurd (ground arith), rest), ground arith)
]

batch_succeeded-Succeeded :
    (plan : Plan) (batch : ℕ) → batch_succeeded plan batch ≡ true → Succeeded batch plan.targets
unfolding batch_succeeded_from
batch_succeeded-Succeeded plan batch h =
    let (a, f) = succeeded_from false batch plan.targets h in (a, ground arith)

-- What the end of a scan does to the plan.
pub data Closes (k : Pass) : PlanStatus → ℕ → Type 0 where
  keeps : Closes k k.plan.status k.plan.current_batch
  cancels :
      k.plan.cancel_requested ≡ true
      → all_targets_terminal k.plan ≡ true
      → Closes k PlanStatus.cancelled k.plan.current_batch
  advances :
      k.may_start ≡ true
      → Succeeded k.plan.current_batch k.plan.targets
      → has_batch k.plan (k.plan.current_batch + 1) ≡ true
      → Closes k k.plan.status (k.plan.current_batch + 1)
  completes :
      k.may_start ≡ true
      → Succeeded k.plan.current_batch k.plan.targets
      → has_batch k.plan (k.plan.current_batch + 1) ≡ false
      → Closes k PlanStatus.succeeded k.plan.current_batch

-- The end of a scan leaves the targets as they are, and goes on to the next batch, or ends the plan as
-- succeeded where there is none, only if every target of the current batch has succeeded; it ends the
-- plan as cancelled only if that was asked for and every target is at an end.
pub close_batch-Closes :
    (now : Time) (k : Pass)
    → ((close_batch now k).plan.targets ≡ k.plan.targets)
      × Closes k (close_batch now k).plan.status (close_batch now k).plan.current_batch
unfolding close_batch
close_batch-Closes now k =
    go (k.plan.cancel_requested && all_targets_terminal k.plan) refl
      (k.may_start && batch_succeeded k.plan k.plan.current_batch) refl
      (has_batch k.plan (k.plan.current_batch + 1)) refl
  where
    ended : PlanStatus → Pass
    ended s = record k {
      plan = record k.plan { status = s; finished_at = some now };
      changed = true;
    }

    next : Pass
    next = record k {
      plan = record k.plan { current_batch = k.plan.current_batch + 1 };
      changed = true;
    }

    go :
        (x : Bool)
        → (k.plan.cancel_requested && all_targets_terminal k.plan) ≡ x
        → (y : Bool) → (k.may_start && batch_succeeded k.plan k.plan.current_batch) ≡ y
        → (z : Bool) → has_batch k.plan (k.plan.current_batch + 1) ≡ z
        → let r : Pass =
            if x
            then ended PlanStatus.cancelled
            else if y
            then (if z then next else ended PlanStatus.succeeded)
            else k in
          (r.plan.targets ≡ k.plan.targets) × Closes k r.plan.status r.plan.current_batch
    go true e y f z g = (refl, cancels (ground arith) (ground arith))
    go false e true f true g = (
      refl,
      advances (ground arith) (batch_succeeded-Succeeded k.plan k.plan.current_batch (ground arith))
          g,
    )
    go false e true f false g = (
      refl,
      completes (ground arith)
          (batch_succeeded-Succeeded k.plan k.plan.current_batch (ground arith)) g,
    )
    go false e false f z g = (refl, keeps)
