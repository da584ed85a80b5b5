-- ===== src/Scheduler/Service/Schedule.antt =====
-- `ScheduleOne`, as a chain of steps of which each may return early.
use konzhitai.Prelude.{
  Bool, true, false, ◌&&◌, String, Option, none, some, List, [], ◌∷◌, Result, ok, err,
  if◌then◌else◌,
}
use konzhitai.Prelude.Int.{ℤ, pos, ltb_ℤ, leb_ℤ}
use konzhitai.Clock.{Time, before}
use konzhitai.Task.{Run, RunState, state_eq}
use konzhitai.Server.{Snapshot}
use konzhitai.Scheduler.Types.{Outcome, Candidate, Lease, Error, wrapped}
use konzhitai.Scheduler.Filter.{filter}
use konzhitai.Scheduler.Score.{rank_candidates}
use konzhitai.Scheduler.Queue.{push, remove}
use konzhitai.Scheduler.Service.{
  Stores, Service, queue_reason, overdue, timeout_alert, request, assignment,
}

-- A step goes on with a value, or returns from the function.
pub data Exit {ℓ} (A : Type ℓ) : Type ℓ where
  go : A → Exit A
  stop : Outcome → Option Error → Exit A

abbrev pub stop_queued {ℓ} : {A : Type ℓ} → Option Error → Exit A
stop_queued e = stop Outcome.queued e

module _ (stores : Stores) where
  open stores use {State}

  abbrev pub M : Type 0 → Type 0
  M A = Service stores → Exit A × Service stores

  infixl 5 ◌>>=◌ ◌>>◌
  abbrev pub ◌>>=◌ : {A B : Type 0} → M A → (A → M B) → M B
  ◌>>=◌ m f s = let (r, s') = m s in elim r [ go a ↦ f a s' | stop o e ↦ (stop o e, s') ]

  abbrev pub ◌>>◌ : {A B : Type 0} → M A → M B → M B
  m >> k = m >>= λ _. k

  -- `if err != nil { return OutcomeQueued, err }`
  abbrev pub attempt : {A : Type 0} → (State → Result Error A × State) → M A
  attempt f s =
      let (r, w) = f s.world in
      (elim r [ ok a ↦ go a | err e ↦ stop_queued (some e) ], record s { world = w })

  -- `_ = ...`
  abbrev pub ignore : {A : Type 0} → (State → Result Error A × State) → M (Unit {0})
  ignore f s = let (_, w) = f s.world in (go tt, record s { world = w })

  abbrev pub always : {A : Type 0} → (State → A × State) → M A
  always f s = let (a, w) = f s.world in (go a, record s { world = w })

  abbrev pub return : Outcome → Option Error → M (Unit {0})
  return o e s = (stop o e, s)

  abbrev pub pass : M (Unit {0})
  pass s = (go tt, s)

  abbrev pub push_run : Run → M (Unit {0})
  push_run run s = (go tt, record s { queue = push s.queue run })

  abbrev pub remove_run : String → M (Unit {0})
  remove_run id s = (go tt, record s { queue = remove s.queue id })

  abbrev pub unless_queued : RunState → M (Unit {0})
  unless_queued RunState.queued = pass
  unless_queued RunState.expired = return Outcome.expired none
  unless_queued _ = return Outcome.queued none

  -- An alert that fails is reported with the outcome `expired`.
  abbrev pub raise_timeout : Run → M (Unit {0})
  raise_timeout run s =
      let (r, w) = stores.raise_alert (timeout_alert run) s.world in
      (
        elim r [
          | ok _ ↦ stop Outcome.expired none
          | err e ↦ stop Outcome.expired (some (wrapped "生成任务排队告警" e))
        ],
        record s { world = w },
      )

  unfoldable pub expire_overdue : Run → Time → M (Unit {0})
  expire_overdue run now =
      if overdue run now
      then (do
        expired ← attempt (stores.expire run.id now)
        if expired then (do remove_run run.id; raise_timeout run) else pass)
      else pass

  unfoldable pub limit_concurrency : Run → ℤ → M (Unit {0})
  limit_concurrency run active =
      if ltb_ℤ (pos 0) run.max_concurrency && leb_ℤ run.max_concurrency active
      then (do
        push_run run
        attempt (stores.set_queue_reason run.id "等待任务并发名额释放")
        return Outcome.queued none)
      else pass

  -- What follows the answer of `Assign`; whatever goes wrong gives the lease back.
  abbrev pub after_assign : Run → Lease → Result Error Bool → M (Unit {0})
  after_assign run lease (err e) = do ignore (stores.release lease); return Outcome.queued (some e)
  after_assign run lease (ok false) = do ignore (stores.release lease); return Outcome.queued none
  after_assign run lease (ok true) = do remove_run run.id; return Outcome.assigned none

  unfoldable pub commit : Run → Time → Candidate → Lease → M (Unit {0})
  commit run now c lease = do
    token ← always stores.new_token
    assigned ← always (stores.assign (assignment run c token lease now))
    after_assign run lease assigned

  -- The loop over the ranked candidates.
  unfoldable pub try_candidates : Run → Time → List Candidate → M (Unit {0})
  unfolding commit
  try_candidates run now [] = pass
  try_candidates run now (c ∷ cs) =
      let rest = try_candidates run now cs in
      attempt (stores.try_reserve (request run c now)) >>= λ lease. elim lease [
        | none ↦ rest
        | some l ↦ commit run now c l
      ]

  -- No candidate was left.
  unfoldable pub requeue : Run → List Candidate → List Snapshot → M (Unit {0})
  requeue run candidates snapshots = do
    push_run run
    attempt (stores.set_queue_reason run.id (queue_reason run candidates snapshots))
    return Outcome.queued none

  unfoldable pub allocate : Run → Time → M (Unit {0})
  unfolding try_candidates requeue
  allocate run now = do
    snapshots ← attempt (stores.snapshots run)
    try_candidates run now (rank_candidates run (filter run snapshots))
    requeue run (filter run snapshots) snapshots

  unfoldable pub schedule_run : Run → M (Unit {0})
  unfolding expire_overdue limit_concurrency allocate
  schedule_run run = do
    unless_queued run.state
    now ← always stores.now
    if before now run.queued_at then return Outcome.queued none else pass
    expire_overdue run now
    active ← attempt (stores.count_active run.definition_id)
    limit_concurrency run active
    allocate run now

  abbrev pub outcome_of : Exit (Unit {0}) × Service stores → Outcome × Option Error × Service stores
  outcome_of (go _, s) = (Outcome.queued, none, s)
  outcome_of (stop o e, s) = (o, e, s)

  -- `ScheduleOne`
  unfoldable pub schedule_one : String → Service stores → Outcome × Option Error × Service stores
  unfolding schedule_run
  schedule_one run_id s = outcome_of ((attempt (stores.get run_id) >>= schedule_run) s)
