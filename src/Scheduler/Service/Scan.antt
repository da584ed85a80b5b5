-- ===== src/Scheduler/Service/Scan.antt =====
-- `HandleEvent`, `Scan` and `restoreActiveLeases`: the retries, the leases to release and to
-- restore, then one attempt for each run that waits.
use konzhitai.Prelude.{
  ℕ, zero, suc, String, Option, none, some, List, [], ◌∷◌, Result, ok, err, if◌then◌else◌, ◌==◌,
  string_eq,
}
use konzhitai.Clock.{Time}
use konzhitai.Task.{Run}
use konzhitai.Scheduler.Types.{EventType, Event, Outcome, Lease, Error, invalid_event, wrapped}
use konzhitai.Scheduler.Queue.{Queue, push, pop, len}
use konzhitai.Scheduler.Service.{Stores, Service}
use konzhitai.Scheduler.Service.Schedule.{schedule_one}

module _ (stores : Stores) where
  open stores use {State}

  -- A method of the service that returns an error.
  abbrev pub S : Type 0 → Type 0
  S A = Service stores → Result Error A × Service stores

  infixl 5 ◌>>=◌ ◌>>◌
  abbrev ◌>>=◌ : {A B : Type 0} → S A → (A → S B) → S B
  ◌>>=◌ m f s = let (r, s') = m s in elim r [ ok a ↦ f a s' | err e ↦ (err e, s') ]

  abbrev ◌>>◌ : {A B : Type 0} → S A → S B → S B
  m >> k = m >>= λ _. k

  abbrev done : S (Unit {0})
  done s = (ok tt, s)

  abbrev plain : {A : Type 0} → (State → Result Error A × State) → S A
  plain f s = let (r, w) = f s.world in (r, record s { world = w })

  -- `fmt.Errorf("...：%w", err)`
  abbrev labelled : {A : Type 0} → String → (State → Result Error A × State) → S A
  labelled m f s =
      let (r, w) = f s.world in
      (elim r [ ok a ↦ ok a | err e ↦ err (wrapped m e) ], record s { world = w })

  abbrev current : S Time
  current s = let (t, w) = stores.now s.world in (ok t, record s { world = w })

  unfoldable pub release_all : List Lease → S (Unit {0})
  release_all [] = done
  release_all (l ∷ ls) =
      let rest = release_all ls in labelled "清理已释放资源租约" (stores.release l) >> rest

  unfoldable pub restore_all : Time → List Lease → S (Unit {0})
  restore_all now [] = done
  restore_all now (l ∷ ls) =
      let rest = restore_all now ls in labelled "恢复运行实例的资源租约" (stores.restore l now) >> rest

  -- `restoreActiveLeases`
  unfoldable pub restore_active_leases : S (Unit {0})
  unfolding restore_all
  restore_active_leases = do
    now ← current
    leases ← labelled "读取待恢复资源租约" (stores.list_active now)
    restore_all now leases

  unfoldable pub push_all : List Run → Queue → Queue
  push_all [] q = q
  push_all (run ∷ runs) q = push_all runs (push q run)

  abbrev push_runs : List Run → S (Unit {0})
  unfolding push_all
  push_runs runs s = (ok tt, record s { queue = push_all runs s.queue })

  abbrev pub after_attempt :
      (Service stores → Result Error (Unit {0}) × Service stores)
      → Outcome × Option Error × Service stores
      → Result Error (Unit {0}) × Service stores
  after_attempt rest (_, none, s) = rest s
  after_attempt rest (_, some e, s) = (err e, s)

  -- The last loop of `Scan`, for `count` rounds.
  unfoldable pub schedule_all : ℕ → S (Unit {0})
  schedule_all zero s = (ok tt, s)
  schedule_all (suc n) s =
      let rest = schedule_all n in
      elim (pop s.queue) [
        | none ↦ (ok tt, s)
        | some (run, q) ↦ after_attempt rest (schedule_one stores run.id (record s { queue = q }))
      ]

  -- `count := s.queue.Len()`
  abbrev schedule_waiting : S (Unit {0})
  unfolding schedule_all
  schedule_waiting s = schedule_all (len s.queue) s

  unfoldable pub scan : S (Unit {0})
  unfolding release_all restore_active_leases schedule_all push_all
  scan = do
    now ← current
    labelled "扫描自动重试" (stores.retry_failed now)
    later ← current
    leases ← labelled "读取已释放资源租约" (stores.list_released later)
    release_all leases
    restore_active_leases
    runs ← plain stores.list_queued
    push_runs runs
    schedule_waiting

  abbrev error_of :
      Outcome × Option Error × Service stores → Result Error (Unit {0}) × Service stores
  error_of (_, none, s) = (ok tt, s)
  error_of (_, some e, s) = (err e, s)

  abbrev on_queued : String → S (Unit {0})
  on_queued run_id s =
      if run_id == "" then (err invalid_event, s) else error_of (schedule_one stores run_id s)

  -- `HandleEvent`
  unfoldable pub handle_event : Event → S (Unit {0})
  unfolding scan
  handle_event event s = elim event.type [
    | EventType.run_queued ↦ on_queued event.run_id s
    | EventType.other _ ↦ (err invalid_event, s)
    | _ ↦ scan s
  ]
