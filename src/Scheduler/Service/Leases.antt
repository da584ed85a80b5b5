-- ===== src/Scheduler/Service/Leases.antt =====
-- What `ScheduleOne` does with reservations, over any stores that keep the laws of a lease store.
use mathlib.Core.Path.{subst}
use konzhitai.Prelude.{
  ◌≡◌, ◌≢◌, refl, sym, ◌∙◌, Bool, true, false, String, Option, none, some, List, [], ◌∷◌, Result,
  ok, err, if◌then◌else◌, String_discrete,
}
use konzhitai.Prelude.Int.{ℤ}
use konzhitai.Clock.{Time, before}
use konzhitai.Task.{Run, RunState}
use konzhitai.Server.{Snapshot}
use konzhitai.Alert
use konzhitai.Scheduler.Types.{Outcome, Candidate, Lease, LeaseRequest, Assignment, Error, wrapped}
use konzhitai.Scheduler.Filter.{filter}
use konzhitai.Scheduler.Score.{rank_candidates}
use konzhitai.Scheduler.Service.{
  Stores, Service, request, assignment, overdue, timeout_alert, queue_reason,
}
use konzhitai.Scheduler.Service.Schedule.{
  Exit, go, stop, M, ◌>>=◌, attempt, always, return, pass, push_run, remove_run, raise_timeout,
  after_assign, unless_queued, expire_overdue, limit_concurrency, commit, try_candidates, requeue,
  allocate, schedule_run, outcome_of, schedule_one,
}

-- What the scheduler relies on, for the reservation of a run on a server: a refused request makes none, a
-- granted one is for the run and the server that were asked for, a release undoes it, and no other
-- call touches reservations. `get` answers with the run that was asked for.
pub record LeaseLaws (stores : Stores) : Type 0 where
  pub holds : String → String → stores.State → Bool
  pub get_found :
      (i : String) (w : stores.State) (run : Run) → (stores.get i w).0 ≡ ok run → run.id ≡ i
  pub refused :
      (q : LeaseRequest) (w : stores.State) (v : String)
      → ((l : Lease) → (stores.try_reserve q w).0 ≢ ok (some l))
      → holds q.run_id v w ≡ false
      → holds q.run_id v (stores.try_reserve q w).1 ≡ false
  pub granted :
      (q : LeaseRequest) (w : stores.State) (l : Lease)
      → (stores.try_reserve q w).0 ≡ ok (some l)
      → (l.run_id ≡ q.run_id) × (l.server_id ≡ q.server_id)
  pub granted_elsewhere :
      (q : LeaseRequest) (w : stores.State) (v : String)
      → v ≢ q.server_id
      → holds q.run_id v w ≡ false
      → holds q.run_id v (stores.try_reserve q w).1 ≡ false
  pub freed :
      (l : Lease) (w : stores.State)
      → (stores.release l w).0 ≡ ok tt
      → holds l.run_id l.server_id (stores.release l w).1 ≡ false
  pub freed_elsewhere :
      (l : Lease) (w : stores.State) (r v : String)
      → v ≢ l.server_id
      → holds r v (stores.release l w).1 ≡ holds r v w
  pub now_keeps : (r v : String) (w : stores.State) → holds r v (stores.now w).1 ≡ holds r v w
  pub token_keeps :
      (r v : String) (w : stores.State) → holds r v (stores.new_token w).1 ≡ holds r v w
  pub get_keeps : (r v i : String) (w : stores.State) → holds r v (stores.get i w).1 ≡ holds r v w
  pub count_keeps :
      (r v i : String) (w : stores.State) → holds r v (stores.count_active i w).1 ≡ holds r v w
  pub assign_keeps :
      (r v : String) (a : Assignment) (w : stores.State)
      → holds r v (stores.assign a w).1 ≡ holds r v w
  pub expire_keeps :
      (r v i : String) (t : Time) (w : stores.State)
      → holds r v (stores.expire i t w).1 ≡ holds r v w
  pub reason_keeps :
      (r v i m : String) (w : stores.State)
      → holds r v (stores.set_queue_reason i m w).1 ≡ holds r v w
  pub snapshots_keep :
      (r v : String) (run : Run) (w : stores.State)
      → holds r v (stores.snapshots run w).1 ≡ holds r v w
  pub alert_keeps :
      (r v : String) (e : Alert.Event) (w : stores.State)
      → holds r v (stores.raise_alert e w).1 ≡ holds r v w

-- A lease that was granted can be released.
abbrev pub Releases : Stores → Type 0
Releases stores =
    (q : LeaseRequest) (w w' : stores.State) (l : Lease)
    → (stores.try_reserve q w).0 ≡ ok (some l)
    → (stores.release l w').0 ≡ ok tt

module _ (stores : Stores) (laws : LeaseLaws stores) (releases : Releases stores) (v : String) where
  open laws use {holds}

  -- The run holds nothing on the server `v`, unless the step returned `assigned`.
  abbrev pub IsClean {ℓ} : {A : Type ℓ} → String → Exit A × Service stores → Type 0
  IsClean r (go _, s) = holds r v s.world ≡ false
  IsClean r (stop Outcome.assigned _, s) = Unit
  IsClean r (stop Outcome.queued _, s) = holds r v s.world ≡ false
  IsClean r (stop Outcome.expired _, s) = holds r v s.world ≡ false

  -- A step that starts without a reservation of the run.
  record Clean {A : Type 0} (r : String) (m : M stores A) : Type 0 where
    runs : (s : Service stores) → holds r v s.world ≡ false → IsClean r (m s)

  bind-Clean :
      {A B : Type 0} {r : String} {m : M stores A} {f : A → M stores B}
      → Clean r m
      → ((a : A) → Clean r (f a))
      → Clean r (◌>>=◌ stores m f)
  bind-Clean {A} {B} {r} {m} {f} c k = record { runs = λ s h. step (m s) (c.runs s h) }
    where
      step :
          (x : Exit A × Service stores)
          → IsClean {A = A} r x
          → IsClean {A = B} r (let (e, t) = x in elim e [ go a ↦ f a t | stop o g ↦ (stop o g, t) ])
      step (go a, t) h = (k a).runs t h
      step (stop Outcome.assigned e, t) h = tt
      step (stop Outcome.queued e, t) h = h
      step (stop Outcome.expired e, t) h = h

  if-Clean :
      {A : Type 0} {r : String} (b : Bool) {m n : M stores A}
      → Clean r m
      → Clean r n
      → Clean r (if b then m else n)
  if-Clean true h k = h
  if-Clean false h k = k

  -- A call of a store that leaves the reservations of the run alone.
  attempt-Clean :
      {A : Type 0} {r : String} (f : stores.State → Result Error A × stores.State)
      → ((w : stores.State) → holds r v (f w).1 ≡ holds r v w)
      → Clean r (attempt stores f)
  attempt-Clean {A} {r} f keeps = record {
    runs = λ s h. step (record s { world = (f s.world).1 }) (f s.world).0 (keeps s.world ∙ h);
  }
    where
      step :
          (t : Service stores) (x : Result Error A)
          → holds r v t.world ≡ false
          → IsClean {A = A} r (elim x [ ok a ↦ go a | err e ↦ stop Outcome.queued (some e) ], t)
      step t (ok a) h = h
      step t (err e) h = h

  always-Clean :
      {A : Type 0} {r : String} (f : stores.State → A × stores.State)
      → ((w : stores.State) → holds r v (f w).1 ≡ holds r v w)
      → Clean r (always stores f)
  always-Clean f keeps = record { runs = λ s h. keeps s.world ∙ h }

  return_queued-Clean : {r : String} (e : Option Error) → Clean r (return stores Outcome.queued e)
  return_queued-Clean e = record { runs = λ s h. h }

  pass-Clean : {r : String} → Clean r (pass stores)
  pass-Clean = record { runs = λ s h. h }

  push-Clean : {r : String} (run : Run) → Clean r (push_run stores run)
  push-Clean run = record { runs = λ s h. h }

  remove-Clean : {r : String} (id : String) → Clean r (remove_run stores id)
  remove-Clean id = record { runs = λ s h. h }

  unless_queued-Clean : {r : String} (x : RunState) → Clean r (unless_queued stores x)
  unless_queued-Clean RunState.queued = record { runs = λ s h. h }
  unless_queued-Clean RunState.expired = record { runs = λ s h. h }
  unless_queued-Clean x = record { runs = λ s h. h }

  raise-Clean : {r : String} (run : Run) → Clean r (raise_timeout stores run)
  raise-Clean {r} run = record {
    runs = λ s h.
        let (x, w) = stores.raise_alert (timeout_alert run) s.world in
        step (record s { world = w }) x (laws.alert_keeps r v (timeout_alert run) s.world ∙ h);
  }
    where
      step :
          (t : Service stores) (x : Result Error (Unit {0}))
          → holds r v t.world ≡ false
          → IsClean {A = Unit {0}} r (
            elim x [
              | ok _ ↦ stop Outcome.expired none
              | err e ↦ stop Outcome.expired (some (wrapped "生成任务排队告警" e))
            ],
            t,
          )
      step t (ok a) h = h
      step t (err e) h = h

  expire-Clean : {r : String} (run : Run) (now : Time) → Clean r (expire_overdue stores run now)
  unfolding expire_overdue
  expire-Clean {r} run now =
      if-Clean (overdue run now)
        (bind-Clean (attempt-Clean (stores.expire run.id now) (laws.expire_keeps r v run.id now))
          λ b. if-Clean b (bind-Clean (remove-Clean run.id) λ _. raise-Clean run) pass-Clean)
        pass-Clean

  reason-Clean :
      {r : String} (m : String) (run : Run)
      → Clean r (
          ◌>>=◌ stores (push_run stores run) λ _.
            ◌>>=◌ stores
              (attempt stores (stores.set_queue_reason run.id m))
              λ _. return stores Outcome.queued none)
  reason-Clean {r} m run = bind-Clean (push-Clean run) λ _.
      bind-Clean (attempt-Clean (stores.set_queue_reason run.id m) (laws.reason_keeps r v run.id m))
        λ _. return_queued-Clean none

  limit-Clean : {r : String} (run : Run) (n : ℤ) → Clean r (limit_concurrency stores run n)
  unfolding limit_concurrency
  limit-Clean run n = if-Clean _ (reason-Clean "等待任务并发名额释放" run) pass-Clean

  -- The lease was granted, and every other server was clean before.
  record Held (run : Run) (l : Lease) (w : stores.State) : Type 0 where
    for_run : l.run_id ≡ run.id
    can_release : (w' : stores.State) → (stores.release l w').0 ≡ ok tt
    elsewhere : v ≢ l.server_id → holds run.id v w ≡ false

  release_frees :
      (run : Run) (l : Lease) (w : stores.State)
      → Held run l w
      → holds run.id v (stores.release l w).1 ≡ false
  release_frees run l w h = elim (String_discrete v l.server_id) [
    | yes e ↦ rw (e, ← h.for_run) (laws.freed l w (h.can_release w))
    | no ne ↦ laws.freed_elsewhere l w run.id v ne ∙ h.elsewhere ne
  ]

  after_assign-IsClean :
      (run : Run) (l : Lease) (x : Result Error Bool) (s : Service stores)
      → Held run l s.world
      → IsClean run.id (after_assign stores run l x s)
  after_assign-IsClean run l (err e) s h = release_frees run l s.world h
  after_assign-IsClean run l (ok false) s h = release_frees run l s.world h
  after_assign-IsClean run l (ok true) s h = tt

  commit-IsClean :
      (run : Run) (now : Time) (c : Candidate) (l : Lease) (s : Service stores)
      → Held run l s.world
      → IsClean run.id (commit stores run now c l s)
  unfolding commit
  commit-IsClean run now c l s h =
      let (token, w) = stores.new_token s.world in
      let (x, u) = stores.assign (assignment run c token l now) w in
      after_assign-IsClean run l x (record s { world = u })
        (record {
          for_run = h.for_run;
          can_release = h.can_release;
          elsewhere = λ ne.
              laws.assign_keeps run.id v (assignment run c token l now) w
              ∙ laws.token_keeps run.id v s.world
              ∙ h.elsewhere ne;
        })

  try-Clean :
      (run : Run) (now : Time) (cs : List Candidate)
      → Clean run.id (try_candidates stores run now cs)
  unfolding try_candidates
  try-Clean run now [] = pass-Clean
  try-Clean run now (c ∷ cs) = record {
    runs = λ s h.
        step (try-Clean run now cs) s h (stores.try_reserve (request run c now) s.world).0 refl;
  }
    where
      after : Service stores → Service stores
      after s = record s { world = (stores.try_reserve (request run c now) s.world).1 }

      step :
          Clean run.id (try_candidates stores run now cs)
          → (s : Service stores) → holds run.id v s.world ≡ false
          → (x : Result Error (Option Lease))
          → (stores.try_reserve (request run c now) s.world).0 ≡ x
          → IsClean {A = Unit {0}} run.id
              (elim (elim x as (λ _. Exit (Option Lease)) [
                | ok a ↦ go a
                | err e ↦ stop Outcome.queued (some e)
              ]) [
                | go lease ↦
                    (elim lease as (λ _. M stores (Unit {0})) [
                      | none ↦ try_candidates stores run now cs
                      | some l ↦ commit stores run now c l
                    ])
                      (after s)
                | stop o e ↦ (stop o e, after s)
              ])
      step rest s h (err e) p = laws.refused (request run c now) s.world v (λ l q. cc (p, q)) h
      step rest s h (ok none) p =
          rest.runs (after s) (laws.refused (request run c now) s.world v (λ l q. cc (p, q)) h)
      step rest s h (ok (some l)) p =
          let (same_run, same_server) = laws.granted (request run c now) s.world l p in
          commit-IsClean run now c l (after s) (record {
            for_run = same_run;
            can_release = λ w'. releases (request run c now) s.world w' l p;
            elsewhere = λ ne.
                laws.granted_elsewhere (request run c now) s.world v (λ e. ne (e ∙ sym same_server))
                  h;
          })

  requeue-Clean :
      {r : String} (run : Run) (cs : List Candidate) (ss : List Snapshot)
      → Clean r (requeue stores run cs ss)
  unfolding requeue
  requeue-Clean run cs ss = reason-Clean (queue_reason run cs ss) run

  allocate-Clean : (run : Run) (now : Time) → Clean run.id (allocate stores run now)
  unfolding allocate
  allocate-Clean run now =
      bind-Clean (attempt-Clean (stores.snapshots run) (laws.snapshots_keep run.id v run)) λ ss.
        bind-Clean (try-Clean run now (rank_candidates run (filter run ss)))
          λ _. requeue-Clean run (filter run ss) ss

  schedule_run-Clean : (run : Run) → Clean run.id (schedule_run stores run)
  unfolding schedule_run
  schedule_run-Clean run = bind-Clean (unless_queued-Clean run.state) λ _.
      bind-Clean (always-Clean stores.now (laws.now_keeps run.id v)) λ now.
        bind-Clean (if-Clean (before now run.queued_at) (return_queued-Clean none) pass-Clean) λ _.
          bind-Clean (expire-Clean run now) λ _.
            bind-Clean
              (attempt-Clean (stores.count_active run.definition_id)
                (laws.count_keeps run.id v run.definition_id))
              λ n. bind-Clean (limit-Clean run n) λ _. allocate-Clean run now

  outcome-IsClean :
      (r : String) (x : Exit (Unit {0}) × Service stores)
      → IsClean {A = Unit {0}} r x
      → (outcome_of stores x).0 ≢ Outcome.assigned
      → holds r v (outcome_of stores x).2.world ≡ false
  outcome-IsClean r (go _, s) c ne = c
  outcome-IsClean r (stop Outcome.assigned e, s) c ne = absurd (ne refl)
  outcome-IsClean r (stop Outcome.queued e, s) c ne = c
  outcome-IsClean r (stop Outcome.expired e, s) c ne = c

  -- Over stores that keep the lease laws and whose granted leases can always be released: a run that held no
  -- reservation on a server holds none there after `ScheduleOne`, on every path that does not end in `assigned`.
  pub schedule_one-no_leak :
      (run_id : String) (s : Service stores)
      → holds run_id v s.world ≡ false
      → (schedule_one stores run_id s).0 ≢ Outcome.assigned
      → holds run_id v (schedule_one stores run_id s).2.world ≡ false
  unfolding schedule_one
  schedule_one-no_leak run_id s h =
      outcome-IsClean run_id
        ((◌>>=◌ stores (attempt stores (stores.get run_id)) (schedule_run stores)) s)
        (step (stores.get run_id s.world).0 refl)
    where
      after : Service stores
      after = record s { world = (stores.get run_id s.world).1 }

      clean : holds run_id v after.world ≡ false
      clean = laws.get_keeps run_id v run_id s.world ∙ h

      step :
          (x : Result Error Run)
          → (stores.get run_id s.world).0 ≡ x
          → IsClean {A = Unit {0}} run_id
              (elim (elim x as (λ _. Exit Run) [
                | ok a ↦ go a
                | err e ↦ stop Outcome.queued (some e)
              ]) [ go run ↦ schedule_run stores run after | stop o e ↦ (stop o e, after) ])
      step (err e) p = clean
      step (ok run) p =
          let same = laws.get_found run_id s.world run p in
          subst (λ i. IsClean {A = Unit {0}} i (schedule_run stores run after)) same
            ((schedule_run-Clean run).runs after
              (subst (λ i. holds i v after.world ≡ false) (sym same) clean))
