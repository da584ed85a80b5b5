-- ===== src/Task/Reconcile.antt =====
-- internal/task/reconcile.go, each transaction as one function on the rows that it reads and writes. A transaction
-- that fails changes nothing; `available` tells whether the database carries it out. Names of events are kept without
-- their common prefix `run.`.
pub mod Retries
pub mod Report
pub mod Reported
mod Tests
use konzhitai.Prelude.{
  ℕ, suc, ◌+◌, Bool, true, false, not, ◌&&◌, ◌||◌, String, Option, none, some, List, [], ◌∷◌, ◌++◌,
  map, any, all, find, keep, Map, lookup, insert, is_blank, if◌then◌else◌, ltb, leb, ◌==◌, ◌!=◌,
  nat_eq, string_eq, Result, ok, err,
}
use konzhitai.Prelude.Int.{ℤ, pos}
use konzhitai.Prelude.TextOrder.{str_less}
use konzhitai.Clock.{Time, is_zero}
use konzhitai.Task.{RunState, state_eq}
use konzhitai.Task.Usage.{ResourceUsage, valid_usage}
use konzhitai.Task.Events.{EventRow, LeaseRow, next_order, release_row}

-- A row of `task_runs`. `copied` stands for the columns that a retry copies and nothing here reads.
pub record RunRow : Type 0 where
  pub id : String
  pub definition_id : String
  pub copied : String
  pub assigned_server_id : Option String
  pub token : String
  pub state : RunState
  pub queued_at : Time
  pub finished_at : Option Time
  pub updated_at : Time
  pub created_at : Time
  pub attempt : ℕ
  pub retry_of : Option String
  pub max_retries : ℕ
  pub retry_backoff : ℕ
  pub idempotent : Bool
  pub process_confirmed_gone : Bool

-- `definitions` has the column `enabled`.
pub record Database : Type 0 where
  pub runs : List RunRow
  pub events : List EventRow
  pub leases : List LeaseRow
  pub definitions : Map Bool

pub data Error : Type 0 where
  run_not_found run_not_retryable invalid_run_event failure : Error

-- `appendSystemRunEvent`, of a usage sample or of none.
abbrev system_event :
    String → String → RunState → Option ResourceUsage → Time → List EventRow → EventRow
system_event run_id type state usage at rows = record {
  task_run_id = run_id;
  order = next_order run_id rows;
  event_type = type;
  state = state;
  message = "";
  exit_code = pos 0;
  usage = usage;
  automatic_retry = false;
  occurred_at = at;
  agent = none;
}

unfoldable pub append_system_run_event :
    String → String → RunState → Option ResourceUsage → Time → Database → Database
append_system_run_event run_id type state usage at db = record db {
  events = db.events ++ system_event run_id type state usage at db.events ∷ [];
}

-- `UPDATE task_runs SET ... WHERE id=$1`
unfoldable pub update_row : String → (RunRow → RunRow) → Database → Database
update_row id f db = record db { runs = map (λ r. if r.id == id then f r else r) db.runs }

abbrev pub find_row : String → List RunRow → Option RunRow
find_row id rows = find (λ r. r.id == id) rows

abbrev pub release_leases : String → Time → Database → Database
release_leases id at db = record db { leases = map (release_row id at) db.leases }

-- `MarkServerRunsUnknown`
abbrev pub at_server : String → RunRow → Bool
at_server server r = elim r.assigned_server_id [ none ↦ false | some s ↦ s == server ]

abbrev pub active_state : RunState → Bool
active_state RunState.assigned = true
active_state RunState.syncing = true
active_state RunState.running = true
active_state _ = false

abbrev pub is_lost : String → RunRow → Bool
is_lost server r = at_server server r && active_state r.state

abbrev lose : String → Time → RunRow → RunRow
lose server at r =
    if is_lost server r
    then record r { state = RunState.unknown; process_confirmed_gone = false; updated_at = at }
    else r

abbrev append_lost : Time → List RunRow → Database → Database
unfolding append_system_run_event
append_lost at [] db = db
append_lost at (r ∷ rs) db =
    append_lost at rs (append_system_run_event r.id "unknown" RunState.unknown none at db)

unfoldable pub mark_server_runs_unknown :
    Bool → String → Time → Database → Result Error (Unit {0}) × Database
unfolding append_lost
mark_server_runs_unknown available server at db = if not available then (err failure, db) else (
  ok tt,
  append_lost at (keep (is_lost server) db.runs)
      (record db { runs = map (lose server at) db.runs }),
)

-- `RunningProcess` and `RunningReport`
pub record RunningProcess : Type 0 where
  pub usage : Option ResourceUsage
  pub run_id : String
  pub execution_token : String

pub record RunningReport : Type 0 where
  pub server_id : String
  pub reported_at : Time
  pub authoritative : Bool
  pub processes : List RunningProcess

-- The maps `active` and `usages`: the last process of a run counts.
abbrev pub reported : String → List RunningProcess → Option RunningProcess
reported id [] = none
reported id (p ∷ ps) = elim (reported id ps) [
  | some q ↦ some q
  | none ↦ if p.run_id == id then some p else none
]

-- `saveRunUsage`; the usage of a process that reports none is not valid.
abbrev sampled_before : ResourceUsage → EventRow → Bool
sampled_before u row = elim row.usage [ none ↦ false | some v ↦ leb u.sampled_at v.sampled_at ]

abbrev save_sample : String → ResourceUsage → Database → Database
unfolding append_system_run_event
save_sample id u db =
    if any (λ row. row.task_run_id == id && sampled_before u row) db.events
    then db
    else append_system_run_event id "usage" RunState.running (some u) u.sampled_at db

unfoldable pub save_run_usage : String → Option ResourceUsage → Database → Database
unfolding save_sample
save_run_usage id none db = db
save_run_usage id (some u) db = if not (valid_usage u) then db else save_sample id u db

-- One candidate of `ReconcileRunning`.
abbrev pub is_running : Option RunningProcess → String → Bool
is_running none token = false
is_running (some p) token = p.execution_token == token

abbrev pub usage_of : Option RunningProcess → Option ResourceUsage
usage_of none = none
usage_of (some p) = p.usage

abbrev pub found : Time → RunRow → RunRow
found at r = record r { state = RunState.running; process_confirmed_gone = false; updated_at = at }

abbrev pub vanished : Time → RunRow → RunRow
vanished at r = record r {
  state = RunState.unknown;
  process_confirmed_gone = true;
  updated_at = at;
}

unfoldable pub confirm_running : Time → RunRow → Option RunningProcess → Database → Database
unfolding save_run_usage update_row append_system_run_event
confirm_running at item p db =
    let after = update_row item.id (found at) (save_run_usage item.id (usage_of p) db) in
    if item.state != RunState.running
    then append_system_run_event item.id "reconciled" RunState.running none at after
    else after

unfoldable pub confirm_absent : Time → RunRow → Database → Database
unfolding update_row append_system_run_event
confirm_absent at item db =
    let released = release_leases item.id at db in
    if item.process_confirmed_gone
    then released
    else append_system_run_event item.id "process_absent" RunState.unknown none at
        (update_row item.id (vanished at) released)

unfoldable pub reconcile_run : RunningReport → Time → RunRow → Database → Database
unfolding confirm_running confirm_absent
reconcile_run report at item db =
    let p = reported item.id report.processes in
    if is_running p item.token
    then confirm_running at item p db
    else if not report.authoritative
    then db
    else confirm_absent at item db

abbrev pub reconcile_all : RunningReport → Time → List RunRow → Database → Database
unfolding reconcile_run
reconcile_all report at [] db = db
reconcile_all report at (r ∷ rs) db = reconcile_all report at rs (reconcile_run report at r db)

abbrev pub open_state : RunState → Bool
open_state RunState.unknown = true
open_state state = active_state state

abbrev pub is_candidate : String → RunRow → Bool
is_candidate server r = at_server server r && open_state r.state

-- `ReconcileRunning`; the candidates are the rows as they were read.
unfoldable pub reconcile_running :
    Bool → RunningReport → Time → Database → Result Error (Unit {0}) × Database
unfolding reconcile_all
reconcile_running available report at db =
    if not available
    then (err failure, db)
    else (ok tt, reconcile_all report at (keep (is_candidate report.server_id) db.runs) db)

-- `Reconciler`
unfoldable pub server_offline : Bool → Time → String → Database → Result Error (Unit {0}) × Database
unfolding mark_server_runs_unknown
server_offline available now server db =
    if is_blank server
    then (err invalid_run_event, db)
    else mark_server_runs_unknown available server now db

abbrev bad_process : RunningProcess → Bool
bad_process p = is_blank p.run_id || is_blank p.execution_token

unfoldable pub reconcile :
    Bool → Time → RunningReport → Database → Result Error (Unit {0}) × Database
unfolding reconcile_running
reconcile available now report db =
    let dated =
      if is_zero report.reported_at then record report { reported_at = now } else report in
    if is_blank report.server_id
    then (err invalid_run_event, db)
    else if any bad_process dated.processes
    then (err invalid_run_event, db)
    else reconcile_running available dated now db
