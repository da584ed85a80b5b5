-- ===== src/Scheduler/Service/Waiting.antt =====
-- What `ScheduleOne` of internal/scheduler/service.go does to the queue.
use mathlib.Core.Path.{subst}
use konzhitai.Prelude.{
  ◌≡◌, ◌≢◌, refl, sym, ◌∙◌, Bool, true, false, String, Option, none, some, List, [], ◌∷◌, lookup,
  lookup-erase_ne, erase-IsMap, Result, ok, err, if◌then◌else◌,
}
use konzhitai.Prelude.Int.{ℤ}
use konzhitai.Clock.{Time, before}
use konzhitai.Task.{Run, RunState}
use konzhitai.Scheduler.Types.{Outcome, Candidate, Lease, Error}
use konzhitai.Scheduler.Filter.{filter}
use konzhitai.Scheduler.Score.{rank_candidates}
use konzhitai.Scheduler.Queue.{Queue, push, remove}
use konzhitai.Scheduler.Queue.Laws.{IsValid, push-stores, erase-keyed}
use konzhitai.Scheduler.Service.{Stores, Service, overdue, request, assignment, queue_reason}
use konzhitai.Scheduler.Service.Schedule.{
  Exit, go, stop, M, ◌>>=◌, attempt, always, ignore, return, pass, push_run, remove_run,
  raise_timeout, after_assign, unless_queued, expire_overdue, limit_concurrency, commit,
  try_candidates, requeue, allocate, schedule_run, outcome_of, schedule_one,
}

-- A queue beside the one at the start: it is valid, and only the entry of the run may differ.
pub record Beside (before : Queue) (id : String) (q : Queue) : Type 0 where
  pub valid : IsValid q
  pub others : (k : String) → k ≢ id → lookup k q.items ≡ lookup k before.items

push-Beside :
    (start : Queue) (run : Run) (q : Queue)
    → Beside start run.id q
    → Beside start run.id (push q run)
push-Beside start run q b =
    let (valid, _, others, _) = push-stores q run b.valid in
    record { valid = valid; others = λ k ne. others k ne ∙ b.others k ne }

remove-Beside :
    (start : Queue) (id : String) (q : Queue) → Beside start id q → Beside start id (remove q id)
unfolding remove
remove-Beside start id q b = record {
  valid = record {
    distinct = erase-IsMap id q.items b.valid.distinct;
    keyed = erase-keyed id q.items b.valid.keyed;
  };
  others = λ k ne. lookup-erase_ne k id q.items ne ∙ b.others k ne;
}

module _ (stores : Stores) (start : Queue) where
  open stores use {State}

  record Keeps {A : Type 0} (id : String) (m : M stores A) : Type 0 where
    keeps : (s : Service stores) → Beside start id s.queue → Beside start id (m s).1.queue

  bind-Keeps :
      {A B : Type 0} {id : String} {m : M stores A} {f : A → M stores B}
      → Keeps id m
      → ((a : A) → Keeps id (f a))
      → Keeps id (◌>>=◌ stores m f)
  bind-Keeps {A} {B} {id} {m} {f} c k = record { keeps = λ s h. step (m s) (c.keeps s h) }
    where
      step :
          (x : Exit A × Service stores)
          → Beside start id x.1.queue
          → Beside start id
              (elim x.0 as (λ _. Exit B × Service stores) [
                | go a ↦ f a x.1
                | stop o e ↦ (stop o e, x.1)
              ]).1.queue
      step (go a, t) h = (k a).keeps t h
      step (stop o e, t) h = h

  if-Keeps :
      {A : Type 0} {id : String} (b : Bool) {m n : M stores A}
      → Keeps id m
      → Keeps id n
      → Keeps id (if b then m else n)
  if-Keeps true h k = h
  if-Keeps false h k = k

  -- A step that leaves the queue alone.
  attempt-Keeps :
      {A : Type 0} {id : String} (f : State → Result Error A × State) → Keeps id (attempt stores f)
  attempt-Keeps f = record { keeps = λ s h. h }

  ignore-Keeps :
      {A : Type 0} {id : String} (f : State → Result Error A × State) → Keeps id (ignore stores f)
  ignore-Keeps f = record { keeps = λ s h. h }

  always-Keeps : {A : Type 0} {id : String} (f : State → A × State) → Keeps id (always stores f)
  always-Keeps f = record { keeps = λ s h. h }

  return-Keeps : {id : String} (o : Outcome) (e : Option Error) → Keeps id (return stores o e)
  return-Keeps o e = record { keeps = λ s h. h }

  pass-Keeps : {id : String} → Keeps id (pass stores)
  pass-Keeps = record { keeps = λ s h. h }

  push_run-Keeps : (run : Run) → Keeps run.id (push_run stores run)
  push_run-Keeps run = record { keeps = λ s h. push-Beside start run s.queue h }

  remove_run-Keeps : (id : String) → Keeps id (remove_run stores id)
  remove_run-Keeps id = record { keeps = λ s h. remove-Beside start id s.queue h }

  unless_queued-Keeps : {id : String} (x : RunState) → Keeps id (unless_queued stores x)
  unless_queued-Keeps RunState.queued = pass-Keeps
  unless_queued-Keeps RunState.expired = return-Keeps Outcome.expired none
  unless_queued-Keeps x = return-Keeps Outcome.queued none

  raise-Keeps : {id : String} (run : Run) → Keeps id (raise_timeout stores run)
  raise-Keeps run = record { keeps = λ s h. h }

  expire-Keeps : (run : Run) (now : Time) → Keeps run.id (expire_overdue stores run now)
  unfolding expire_overdue
  expire-Keeps run now =
      if-Keeps (overdue run now)
        (bind-Keeps (attempt-Keeps (stores.expire run.id now))
          λ b. if-Keeps b (bind-Keeps (remove_run-Keeps run.id) λ _. raise-Keeps run) pass-Keeps)
        pass-Keeps

  put_back-Keeps :
      (run : Run) (reason : String)
      → Keeps run.id (
          ◌>>=◌ stores (push_run stores run) λ _.
            ◌>>=◌ stores
              (attempt stores (stores.set_queue_reason run.id reason))
              λ _. return stores Outcome.queued none)
  put_back-Keeps run reason = bind-Keeps (push_run-Keeps run) λ _.
      bind-Keeps (attempt-Keeps (stores.set_queue_reason run.id reason))
        λ _. return-Keeps Outcome.queued none

  limit-Keeps : (run : Run) (n : ℤ) → Keeps run.id (limit_concurrency stores run n)
  unfolding limit_concurrency
  limit-Keeps run n = if-Keeps _ (put_back-Keeps run "等待任务并发名额释放") pass-Keeps

  after_assign-Keeps :
      (run : Run) (l : Lease) (x : Result Error Bool) → Keeps run.id (after_assign stores run l x)
  after_assign-Keeps run l (err e) =
      bind-Keeps (ignore-Keeps (stores.release l)) λ _. return-Keeps Outcome.queued (some e)
  after_assign-Keeps run l (ok false) =
      bind-Keeps (ignore-Keeps (stores.release l)) λ _. return-Keeps Outcome.queued none
  after_assign-Keeps run l (ok true) =
      bind-Keeps (remove_run-Keeps run.id) λ _. return-Keeps Outcome.assigned none

  commit-Keeps :
      (run : Run) (now : Time) (c : Candidate) (l : Lease)
      → Keeps run.id (commit stores run now c l)
  unfolding commit
  commit-Keeps run now c l = bind-Keeps (always-Keeps stores.new_token) λ token.
      bind-Keeps (always-Keeps (stores.assign (assignment run c token l now)))
        λ x. after_assign-Keeps run l x

  try-Keeps :
      (run : Run) (now : Time) (cs : List Candidate)
      → Keeps run.id (try_candidates stores run now cs)
  unfolding try_candidates
  try-Keeps run now [] = pass-Keeps
  try-Keeps run now (c ∷ cs) =
      bind-Keeps (attempt-Keeps (stores.try_reserve (request run c now)))
        λ lease. answer lease (try-Keeps run now cs)
    where
      answer :
          (lease : Option Lease)
          → Keeps run.id (try_candidates stores run now cs)
          → Keeps run.id (elim lease as (λ _. M stores (Unit {0})) [
            | none ↦ try_candidates stores run now cs
            | some l ↦ commit stores run now c l
          ])
      answer none rest = rest
      answer (some l) rest = commit-Keeps run now c l

  allocate-Keeps : (run : Run) (now : Time) → Keeps run.id (allocate stores run now)
  unfolding allocate requeue
  allocate-Keeps run now = bind-Keeps (attempt-Keeps (stores.snapshots run)) λ ss.
      bind-Keeps (try-Keeps run now (rank_candidates run (filter run ss)))
        λ _. put_back-Keeps run (queue_reason run (filter run ss) ss)

  schedule_run-Keeps : (run : Run) → Keeps run.id (schedule_run stores run)
  unfolding schedule_run
  schedule_run-Keeps run = bind-Keeps (unless_queued-Keeps run.state) λ _.
      bind-Keeps (always-Keeps stores.now) λ now.
        bind-Keeps
          (if-Keeps (before now run.queued_at) (return-Keeps Outcome.queued none) pass-Keeps)
          λ _. bind-Keeps (expire-Keeps run now) λ _.
            bind-Keeps (attempt-Keeps (stores.count_active run.definition_id))
              λ n. bind-Keeps (limit-Keeps run n) λ _. allocate-Keeps run now

outcome_of-queue :
    (stores : Stores) (x : Exit (Unit {0}) × Service stores)
    → (outcome_of stores x).2.queue ≡ x.1.queue
outcome_of-queue stores (go a, s) = refl
outcome_of-queue stores (stop o e, s) = refl

-- Where `Get` answers with the run that it is asked for: `ScheduleOne` leaves a valid queue valid, and the entry of
-- every other run as it was, on every path, failures of the stores included.
pub schedule_one-Beside :
    (stores : Stores) (run_id : String) (s : Service stores)
    → ((w : stores.State) (run : Run) → (stores.get run_id w).0 ≡ ok run → run.id ≡ run_id)
    → IsValid s.queue
    → Beside s.queue run_id (schedule_one stores run_id s).2.queue
unfolding schedule_one
schedule_one-Beside stores run_id s found valid =
    subst (Beside s.queue run_id)
      (sym (
        outcome_of-queue stores
          ((◌>>=◌ stores (attempt stores (stores.get run_id)) (schedule_run stores)) s)))
      (step (stores.get run_id s.world).0 refl)
  where
    after : Service stores
    after = record s { world = (stores.get run_id s.world).1 }

    same : Beside s.queue run_id s.queue
    same = record { valid = valid; others = λ k ne. refl }

    step :
        (x : Result Error Run)
        → (stores.get run_id s.world).0 ≡ x
        → Beside s.queue run_id
            (elim (elim x as (λ _. Exit Run) [ ok a ↦ go a | err e ↦ stop Outcome.queued (some e) ])
              as (λ _. Exit (Unit {0}) × Service stores) [
                | go run ↦ schedule_run stores run after
                | stop o e ↦ (stop o e, after)
              ]).1.queue
    step (err e) p = same
    step (ok run) p =
        subst (λ i. Beside s.queue i (schedule_run stores run after).1.queue) (found s.world run p)
          ((schedule_run-Keeps stores s.queue run).keeps after
            (subst (λ i. Beside s.queue i s.queue) (sym (found s.world run p)) same))
