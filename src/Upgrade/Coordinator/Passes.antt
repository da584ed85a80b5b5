-- ===== src/Upgrade/Coordinator/Passes.antt =====
-- The handlers of `Coordinator.Scan` keep to the steps of Frames.
use mathlib.Core.Path.{subst}
use konzhitai.Prelude.{
  ◌⊎◌, inl, inr, ℕ, zero, suc, ◌≡◌, refl, sym, ◌∙◌, Bool, true, false, not, ◌&&◌, ◌||◌, String,
  Option, none, some, List, [], arith, if◌then◌else◌, ◌!=◌, nat_eq, string_eq, ok,
}
use konzhitai.Prelude.Actions.{
  Action, give, lift, when, Ends, give-Ends, bind-Ends, then-Ends, any-Ends, if-Ends, lift-Ends,
}
use konzhitai.Prelude.Int.{leb_ℤ}
use konzhitai.Clock.{Time, seconds, sub}
use konzhitai.Upgrade.Types.{
  Plan, PlanStatus, PlanStatus_discrete, plan_status_eq, Target, TargetStatus, target_status_eq,
  Error,
}
use konzhitai.Upgrade.Rollback.{rollback_targets, rollback_batch, paused_for, rollback_command}
use konzhitai.Upgrade.Coordinator.{Stores, get_elem?, set_elem, runtime_available, install_command}
use konzhitai.Upgrade.Coordinator.Scan.{
  Pass, with_target, mark_source_version_changed, drifted, given_up, may_start_target, on_waiting,
  on_draining, on_installing, on_reconnecting, on_health_checking, on_rolling_back, on_target,
  fail_batch, visit, visit_all, drain_expired, finish_target, artifact_for, start_download,
  add_command, unready, stale,
}
use konzhitai.Upgrade.Coordinator.Frames.{
  ScanStep, starts, downloads, drifts_draining, drifts_downloading, drifts_verifying,
  drifts_installing, finishes, gives_up, Frames, Kept, write-Kept, step-Framed,
  rollback_targets-Frames, Frames-trans, Frames-refl,
}

module _ (stores : Stores) (may cancel : Bool) (batch : ℕ) (ts : List Target) where
  open stores use {State}

  abbrev K : Pass → Type 0
  K = Kept may cancel batch ts

  -- The pass stands at a target of the batch.
  record At (k : Pass) (i : ℕ) (t : Target) : Type 0 where
    kept : K k
    found : get_elem? k.plan.targets i ≡ some t
    here : t.batch_number ≡ batch

  -- A step of the target at hand.
  step-Kept :
      (k k' : Pass) (i : ℕ) (t v : Target)
      → At k i t
      → v.id ≡ t.id
      → v.batch_number ≡ t.batch_number
      → ScanStep may cancel t.status v.status
      → (k'.may_start ≡ true → may ≡ true)
      → k'.plan.cancel_requested ≡ k.plan.cancel_requested
      → k'.plan.current_batch ≡ k.plan.current_batch
      → k'.plan.targets ≡ set_elem k.plan.targets i v
      → K k'
  step-Kept k k' i t v a same_id same_batch h m c b e =
      write-Kept may cancel batch ts k k' i t v a.kept a.found
        (step-Framed may cancel batch t v same_id same_batch a.here h) m c b e

  -- The plan keeps its targets.
  same-Kept :
      (k k' : Pass)
      → K k
      → (k'.may_start ≡ true → may ≡ true)
      → k'.plan.cancel_requested ≡ k.plan.cancel_requested
      → k'.plan.current_batch ≡ k.plan.current_batch
      → k'.plan.targets ≡ k.plan.targets
      → K k'
  same-Kept k k' h m c b e = record {
    started = m;
    cancelling = c ∙ h.cancelling;
    current = b ∙ h.current;
    frames = subst (Frames may cancel batch ts) (sym e) h.frames;
  }

  drift-Kept :
      (now : Time) (k : Pass) (i : ℕ) (t : Target)
      → At k i t
      → ScanStep may cancel t.status TargetStatus.manual_intervention
      → K (mark_source_version_changed now i t k)
  unfolding mark_source_version_changed
  drift-Kept now k i t a h =
      step-Kept k (mark_source_version_changed now i t k) i t (drifted now t) a refl refl h
        (λ e. cc) refl refl refl

  choose : (b : Bool) (x y : Pass) → (b ≡ true → K x) → (b ≡ false → K y) → K (if b then x else y)
  choose true x y h k = h refl
  choose false x y h k = k refl

  waiting-Kept :
      (now : Time) (k : Pass) (i : ℕ) (t : Target)
      → At k i t
      → t.status ≡ TargetStatus.waiting
      → K (on_waiting now i t k)
  unfolding on_waiting
  waiting-Kept now k i t a w =
      let u : Target = record t {
        status = TargetStatus.draining;
        started_at = some now;
        updated_at = now;
      } in
      let k' = record k { plan = with_target i u k.plan; changed = true } in
      choose (not k.may_start) k k' (λ _. a.kept)
        λ h.
          step-Kept k k' i t u a refl refl
            (subst (λ s. ScanStep may cancel s TargetStatus.draining) (sym w)
              (starts (a.kept.started (ground arith))))
            a.kept.started refl refl refl

  rolling_back-Kept :
      (now : Time) (k : Pass) (i : ℕ) (t : Target)
      → At k i t
      → t.status ≡ TargetStatus.rolling_back
      → K (on_rolling_back now i t k)
  unfolding on_rolling_back
  rolling_back-Kept now k i t a w =
      let late = record k {
        plan = with_target i (given_up now t) (paused_for "代理回滚超时，需要人工处理" k.plan);
        changed = true;
      } in
      let again =
        add_command (record { server_id = t.server_id; command = rollback_command k.plan t }) k in
      choose (leb_ℤ (seconds k.plan.reconnect_timeout_seconds) (sub now t.updated_at)) late again
        (λ _.
          step-Kept k late i t (given_up now t) a refl refl
            (subst (λ s. ScanStep may cancel s TargetStatus.manual_intervention) (sym w) gives_up)
            a.kept.started refl refl refl)
        (λ _. same-Kept k again a.kept a.kept.started refl refl refl)

  fail_batch-Kept :
      (now : Time) (k : Pass) (i : ℕ) (t : Target) (code : String)
      → At k i t
      → (s : State) → K (fail_batch stores now t code k s).0
  unfolding fail_batch rollback_batch
  fail_batch-Kept now k i t code a s =
      let paused = paused_for "当前批次升级失败，正在回滚" k.plan in
      record {
        started = a.kept.started;
        cancelling = a.kept.cancelling;
        current = a.kept.current;
        frames = Frames-trans may cancel batch ts k.plan.targets _ a.kept.frames (
            subst
              (λ b.
                Frames may cancel batch k.plan.targets
                  (rollback_targets stores.new_id paused b t.id code now k.plan.targets s).0)
              (sym a.here)
              (rollback_targets-Frames may cancel batch stores.new_id paused t.id code now
                k.plan.targets s));
      }

  reconnecting-Kept :
      (now : Time) (k : Pass) (i : ℕ) (t : Target)
      → At k i t
      → (s : State) → K (on_reconnecting stores now t k s).0
  unfolding on_reconnecting
  reconnecting-Kept now k i t a s =
      ground (arith, fail_batch-Kept now k i t "reconnect_timeout" a s, a.kept)

  installing-Ends :
      (now : Time) (k : Pass) (i : ℕ) (t : Target)
      → At k i t
      → ScanStep may cancel t.status TargetStatus.manual_intervention
      → Ends K (on_installing stores now i t k)
  unfolding on_installing
  installing-Ends now k i t a h =
      bind-Ends {m = stores.server_runtime t.server_id} any-Ends λ runtime _.
        if-Ends
          (runtime.agent_version != t.source_version && runtime.agent_version != t.target_version)
          (λ _. give-Ends (mark_source_version_changed now i t k) (drift-Kept now k i t a h))
          λ _. bind-Ends {m = artifact_for stores k runtime} any-Ends λ artifact _.
            let next =
              add_command
                (record { server_id = t.server_id; command = install_command k.plan t artifact })
                k in
            give-Ends next (same-Kept k next a.kept a.kept.started refl refl refl)

  draining-Ends :
      (now : Time) (k : Pass) (i : ℕ) (t : Target)
      → At k i t
      → t.status ≡ TargetStatus.draining
      → Ends K (on_draining stores now i t k)
  unfolding on_draining
  draining-Ends now k i t a w =
      let paused = record k { plan = paused_for "服务器排空超时" k.plan; changed = true } in
      if-Ends (not k.may_start && not k.plan.cancel_requested) (λ _. give-Ends k a.kept)
        λ goes.
          if-Ends (drain_expired k.plan t now)
            (λ _. give-Ends paused (same-Kept k paused a.kept a.kept.started refl refl refl))
            λ _. then-Ends {m = stores.set_server_draining t.server_id true} any-Ends λ _ _.
              bind-Ends {m = stores.server_runtime t.server_id} any-Ends λ runtime _.
                if-Ends (unready runtime) (λ _. give-Ends k a.kept)
                  λ _.
                    if-Ends (runtime.agent_version != t.source_version)
                      (λ _.
                        give-Ends (mark_source_version_changed now i t k)
                          (drift-Kept now k i t a (from_draining (drifts_draining (may_go goes)))))
                      λ _. bind-Ends {m = artifact_for stores k runtime} any-Ends λ artifact _.
                        give-Ends (start_download stores now i t k artifact) (
                          step-Kept k (start_download stores now i t k artifact) i t _ a refl refl
                            (from_draining (downloads (may_go goes))) a.kept.started refl refl refl)
    where
      may_go : (not k.may_start && not k.plan.cancel_requested) ≡ false → (may || cancel) ≡ true
      may_go h = ground (arith, a.kept.started, a.kept.cancelling)

      from_draining :
          {s : TargetStatus}
          → ScanStep may cancel TargetStatus.draining s
          → ScanStep may cancel t.status s
      from_draining {s} = subst (λ r. ScanStep may cancel r s) (sym w)

  health_checking-Ends :
      (now : Time) (k : Pass) (i : ℕ) (t : Target)
      → At k i t
      → t.status ≡ TargetStatus.health_checking
      → Ends K (on_health_checking stores now i t k)
  unfolding on_health_checking
  health_checking-Ends now k i t a w =
      let fails =
        lift-Ends (fail_batch stores now t "health_check_failed" k)
          (fail_batch-Kept now k i t "health_check_failed" a) in
      bind-Ends {m = stores.server_runtime t.server_id} any-Ends λ runtime _.
        if-Ends (not (runtime_available runtime t.target_version now)) (λ _. fails)
          λ _.
            if-Ends (not (leb_ℤ (seconds k.plan.verification_seconds) (sub now t.updated_at)))
              (λ _. give-Ends k a.kept)
              λ _.
                if-Ends (stale runtime t) (λ _. fails)
                  λ _.
                    then-Ends
                      {m = when (not t.source_draining)
                        (stores.set_server_draining t.server_id false)}
                      any-Ends
                      λ _ _. give-Ends (finish_target stores now i t k) (
                        step-Kept k (finish_target stores now i t k) i t _ a refl refl
                          (subst (λ s. ScanStep may cancel s TargetStatus.succeeded) (sym w)
                            finishes)
                          a.kept.started refl refl refl)

  on_target-Ends :
      (now : Time) (k : Pass) (i : ℕ) (t : Target) → At k i t → Ends K (on_target stores now i t k)
  unfolding on_target
  on_target-Ends now k i t a = go t.status refl
    where
      -- The handler of each status.
      go :
          (x : TargetStatus)
          → t.status ≡ x
          → Ends K (elim x as (λ _. Action State Error Pass) [
            | TargetStatus.waiting ↦ give (on_waiting now i t k)
            | TargetStatus.draining ↦ on_draining stores now i t k
            | TargetStatus.downloading ↦ on_installing stores now i t k
            | TargetStatus.verifying ↦ on_installing stores now i t k
            | TargetStatus.installing ↦ on_installing stores now i t k
            | TargetStatus.reconnecting ↦ lift (on_reconnecting stores now t k)
            | TargetStatus.health_checking ↦ on_health_checking stores now i t k
            | TargetStatus.rolling_back ↦ give (on_rolling_back now i t k)
            | _ ↦ give k
          ])
      go TargetStatus.waiting e = give-Ends _ (waiting-Kept now k i t a e)
      go TargetStatus.draining e = draining-Ends now k i t a e
      go TargetStatus.downloading e = installing-Ends now k i t a (
          subst (λ s. ScanStep may cancel s TargetStatus.manual_intervention) (sym e)
            drifts_downloading)
      go TargetStatus.verifying e = installing-Ends now k i t a (
          subst (λ s. ScanStep may cancel s TargetStatus.manual_intervention) (sym e)
            drifts_verifying)
      go TargetStatus.installing e = installing-Ends now k i t a (
          subst (λ s. ScanStep may cancel s TargetStatus.manual_intervention) (sym e)
            drifts_installing)
      go TargetStatus.reconnecting e =
          lift-Ends (on_reconnecting stores now t k) (reconnecting-Kept now k i t a)
      go TargetStatus.health_checking e = health_checking-Ends now k i t a e
      go TargetStatus.rolling_back e = give-Ends _ (rolling_back-Kept now k i t a e)
      go x e = give-Ends k a.kept

  visit-Ends : (now : Time) (i : ℕ) (k : Pass) → K k → Ends K (visit stores now i k)
  unfolding visit
  visit-Ends now i k h = go (get_elem? k.plan.targets i) refl
    where
      go :
          (x : Option Target)
          → get_elem? k.plan.targets i ≡ x
          → Ends K (elim x as (λ _. Action State Error Pass) [
            | none ↦ give k
            | some t ↦
                if t.batch_number != k.plan.current_batch
                then give k
                else on_target stores now i t k
          ])
      go none e = give-Ends k h
      go (some t) e =
          if-Ends (t.batch_number != k.plan.current_batch) (λ _. give-Ends k h)
            λ same.
              on_target-Ends now k i t
                (record { kept = h; found = e; here = ground (arith, h.current) })

  pub visit_all-Ends : (now : Time) (n i : ℕ) (k : Pass) → K k → Ends K (visit_all stores now n i k)
  unfolding visit_all
  visit_all-Ends now zero i k h = give-Ends k h
  visit_all-Ends now (suc n) i k h =
      bind-Ends {m = visit stores now i k} (visit-Ends now i k h)
        λ k' h'. visit_all-Ends now n (suc i) k' h'

-- The plan may start targets.
abbrev pub MayStart : Plan → Type 0
MayStart plan =
    ((plan.status ≡ PlanStatus.running) ⊎ (plan.status ≡ PlanStatus.pending))
    × (plan.cancel_requested ≡ false)

start_allowed : (plan : Plan) → may_start_target plan ≡ true → MayStart plan
start_allowed plan h = elim (PlanStatus_discrete plan.status PlanStatus.running) [
  | yes e ↦ (inl e, ground (arith, h))
  | no ne ↦ elim (PlanStatus_discrete plan.status PlanStatus.pending) [
    | yes f ↦ (inr f, ground (arith, h))
    | no nf ↦ absurd (ground (arith, h, ne, nf))
  ]
]

-- Whatever the stores answer, a pass of `Scan` over a plan leaves the targets of other batches as they
-- are, and each target of the current batch with its identity and in a status that the steps of `ScanStep` lead
-- to. Only a plan that is pending or running and is not being cancelled starts a waiting target.
pub scan_pass-Frames :
    (stores : Stores) (now : Time) (plan : Plan) (n : ℕ) (k : Pass) (s t : stores.State)
    → visit_all stores now n 0
        (record { plan = plan; changed = false; commands = []; may_start = may_start_target plan })
        s
      ≡ (ok k, t)
    → (may : Bool) × (may ≡ true → MayStart plan)
      × Frames may plan.cancel_requested plan.current_batch plan.targets k.plan.targets
      × (k.plan.current_batch ≡ plan.current_batch)
scan_pass-Frames stores now plan n k s t h =
    let may = may_start_target plan in
    let kept =
      (visit_all-Ends stores may plan.cancel_requested plan.current_batch plan.targets now n 0
          (record { plan = plan; changed = false; commands = []; may_start = may })
          (record {
            started = λ e. e;
            cancelling = refl;
            current = refl;
            frames = Frames-refl may plan.cancel_requested plan.current_batch plan.targets;
          })).ends
        s k t h in
    (may, start_allowed plan, kept.frames, kept.current)
