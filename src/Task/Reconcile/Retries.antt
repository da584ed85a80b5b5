-- ===== src/Task/Reconcile/Retries.antt =====
-- The retries of internal/task/reconcile.go.
pub mod Lineage
pub mod Replay
use konzhitai.Prelude.{
  ℕ, suc, ◌+◌, Bool, true, false, not, ◌&&◌, ◌||◌, String, Option, none, some, List, [], ◌∷◌, ◌++◌,
  map, any, all, find, keep, Map, lookup, insert, is_blank, if◌then◌else◌, ltb, leb, ◌==◌, ◌!=◌,
  nat_eq, string_eq, Result, ok, err,
}
use konzhitai.Prelude.Int.{ℤ, pos}
use konzhitai.Prelude.TextOrder.{str_less}
use konzhitai.Clock.{Time, is_zero}
use konzhitai.Task.{RunState, state_eq}
use konzhitai.Task.Usage.{ResourceUsage, valid_usage}
use konzhitai.Task.Events.{EventRow, LeaseRow, next_order, release_row}
use konzhitai.Task.Reconcile.{
  Database, Error, RunRow, append_system_run_event, failure, find_row, release_leases,
  run_not_found, run_not_retryable,
}

-- `retryRun`
abbrev pub root_of : RunRow → String
root_of r = elim r.retry_of [ none ↦ r.id | some root ↦ root ]

abbrev ended_badly : RunState → Bool
ended_badly RunState.failed = true
ended_badly RunState.timed_out = true
ended_badly _ = false

abbrev retryable_state : RunState → Bool
retryable_state RunState.cancelled = true
retryable_state RunState.unknown = true
retryable_state state = ended_badly state

abbrev may_retry : RunRow → Bool
may_retry r =
    r.idempotent
    && r.process_confirmed_gone
    && leb r.attempt r.max_retries
    && retryable_state r.state

abbrev wants_retry : String → EventRow → Bool
wants_retry id row =
    row.task_run_id == id
    && row.automatic_retry
    && (row.event_type == "failed" || row.event_type == "timed_out")

abbrev is_cancellation : String → EventRow → Bool
is_cancellation id row = row.task_run_id == id && row.event_type == "cancel_requested"

unfoldable pub may_retry_alone : RunRow → List EventRow → Bool
may_retry_alone r events =
    any (wants_retry r.id) events && not (any (is_cancellation r.id) events) && ended_badly r.state

-- The run that was created for a retry of this attempt or of a later one.
abbrev pub retries : String → RunRow → Bool
retries root r = elim r.retry_of [ none ↦ false | some s ↦ s == root ]

abbrev pub is_successor : String → ℕ → RunRow → Bool
is_successor root attempt r = retries root r && ltb attempt r.attempt

-- `ORDER BY attempt, created_at, id LIMIT 1`
abbrev earlier : RunRow → RunRow → Bool
earlier r q =
    if r.attempt != q.attempt
    then ltb r.attempt q.attempt
    else if r.created_at != q.created_at
    then ltb r.created_at q.created_at
    else str_less r.id q.id

abbrev pub pick : RunRow → Option RunRow → Option RunRow
pick r none = some r
pick r (some q) = some (if earlier q r then q else r)

abbrev pub first_successor : String → ℕ → List RunRow → Option RunRow
first_successor root attempt [] = none
first_successor root attempt (r ∷ rs) =
    let rest = first_successor root attempt rs in
    if is_successor root attempt r then pick r rest else rest

-- `GREATEST($2, COALESCE(finished_at,updated_at) + retry_backoff_seconds * interval '1 second')`; `retry_backoff` is
-- in nanoseconds.
abbrev backoff_end : RunRow → Time
backoff_end r = elim r.finished_at [
  | none ↦ r.updated_at + r.retry_backoff
  | some t ↦ t + r.retry_backoff
]

abbrev later : Time → Time → Time
later a b = if ltb a b then b else a

abbrev pub retry_row : String → Time → RunRow → RunRow
retry_row new_id at r = record r {
  id = new_id;
  assigned_server_id = none;
  token = "";
  state = RunState.queued;
  queued_at = later at (backoff_end r);
  finished_at = none;
  updated_at = at;
  created_at = at;
  attempt = suc r.attempt;
  retry_of = some (root_of r);
  process_confirmed_gone = false;
}

abbrev pub add_retry : String → Time → RunRow → Database → Database
unfolding append_system_run_event
add_retry new_id at r db =
    append_system_run_event new_id "queued" RunState.queued none at
      (record db { runs = db.runs ++ retry_row new_id at r ∷ [] })

abbrev pub retry_or_find : String → Time → RunRow → Database → Result Error String × Database
unfolding add_retry
retry_or_find new_id at r db = elim (first_successor (root_of r) r.attempt db.runs) [
  | some q ↦ (ok q.id, db)
  | none ↦ (ok new_id, add_retry new_id at r db)
]

abbrev pub checked_retry : Bool → String → Time → RunRow → Database → Result Error String × Database
unfolding may_retry_alone retry_or_find
checked_retry automatic new_id at r db =
    if not (may_retry r)
    then (err run_not_retryable, db)
    else if automatic && not (may_retry_alone r db.events)
    then (err run_not_retryable, db)
    else retry_or_find new_id at r (release_leases r.id at db)

abbrev pub enabled_retry :
    Option Bool → Bool → String → Time → RunRow → Database → Result Error String × Database
unfolding checked_retry
enabled_retry none automatic new_id at r db = (err failure, db)
enabled_retry (some false) automatic new_id at r db = (err run_not_retryable, db)
enabled_retry (some true) automatic new_id at r db = checked_retry automatic new_id at r db

-- `new_id` is the identifier that the database generates.
unfoldable pub retry_run :
    Bool → Bool → String → String → Time → Database → Result Error String × Database
unfolding enabled_retry
retry_run available automatic new_id run_id at db =
    if not available then (err failure, db) else elim (find_row run_id db.runs) [
      | none ↦ (err run_not_found, db)
      | some r ↦ enabled_retry (lookup r.definition_id db.definitions) automatic new_id at r db
    ]

unfoldable pub retry : Bool → Time → String → String → Database → Result Error String × Database
unfolding retry_run
retry available now new_id run_id db =
    if is_blank run_id
    then (err run_not_retryable, db)
    else retry_run available false new_id run_id now db

-- The loop of `RetryFailed` over the runs that its query lists, each with the identifier that a retry would get.
abbrev skipped : Error → Bool
skipped run_not_found = true
skipped run_not_retryable = true
skipped _ = false

abbrev pub continue_with :
    (Database → Result Error (Unit {0}) × Database)
    → Result Error String × Database
    → Result Error (Unit {0}) × Database
continue_with rest (ok _, db) = rest db
continue_with rest (err e, db) = if skipped e then rest db else (err e, db)

unfoldable pub retry_each :
    Bool → List (String × String) → Time → Database → Result Error (Unit {0}) × Database
unfolding retry_run
retry_each available [] at db = (ok tt, db)
retry_each available ((id, new_id) ∷ ids) at db =
    continue_with (retry_each available ids at) (retry_run available true new_id id at db)
