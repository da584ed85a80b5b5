-- ===== src/Task/Events.antt =====
-- internal/task/event_service.go: what an agent reports of a run, as one transaction on the rows of the
-- run, its events and its leases. Names of events are kept without their common prefix `run.`; a
-- transaction that fails changes nothing.
pub mod Applied
pub mod Sequence
pub mod Terminal
use konzhitai.Prelude.{
  ℕ, zero, suc, ◌+◌, Bool, true, false, not, ◌&&◌, ◌||◌, String, Option, none, some, List, [], ◌∷◌,
  ◌++◌, map, find, Map, lookup, insert, is_blank, if◌then◌else◌, ltb, ◌==◌, ◌!=◌, nat_eq, string_eq,
  Result, ok, err,
}
use konzhitai.Prelude.Int.{ℤ}
use konzhitai.Clock.{Time, is_zero}
use konzhitai.Task.{RunState, terminal, state_eq}
use konzhitai.Task.Usage.{ResourceUsage, valid_usage, equal_usage, int_eq}

pub data Error : Type 0 where
  run_not_found invalid_run_event token_mismatch run_event_conflict run_event_sequence : Error
  failure : Error

abbrev pub running_transition : RunState → Bool
running_transition RunState.assigned = true
running_transition RunState.syncing = true
running_transition RunState.unknown = true
running_transition _ = false

abbrev pub ending_transition : RunState → Bool
ending_transition RunState.running = true
ending_transition from = running_transition from

-- `validAgentTransition`
unfoldable pub valid_agent_transition : RunState → RunState → Bool
valid_agent_transition from to =
    if from == to
    then true
    else if to == RunState.running
    then running_transition from
    else terminal to && ending_transition from

-- `stateForAgentEvent`
unfoldable pub state_for_agent_event : String → Option RunState
state_for_agent_event event_type =
    if event_type == "started"
    then some RunState.running
    else if event_type == "succeeded"
    then some RunState.succeeded
    else if event_type == "failed"
    then some RunState.failed
    else if event_type == "timed_out"
    then some RunState.timed_out
    else if event_type == "cancelled"
    then some RunState.cancelled
    else none

pub record RunEvent : Type 0 where
  pub run_id : String
  pub execution_token : String
  pub sequence : ℕ
  pub type : String
  pub exit_code : ℤ
  pub message : String
  pub usage : Option ResourceUsage
  pub occurred_at : Time

-- A row of `run_events`. System events have no token and no agent sequence.
pub record EventRow : Type 0 where
  pub task_run_id : String
  pub order : ℕ
  pub event_type : String
  pub state : RunState
  pub message : String
  pub exit_code : ℤ
  pub usage : Option ResourceUsage
  pub automatic_retry : Bool
  pub occurred_at : Time
  pub agent : Option (String × ℕ)

-- A row of `task_runs`, as far as events change it.
pub record RunRow : Type 0 where
  pub token : String
  pub state : RunState
  pub started_at : Option Time
  pub finished_at : Option Time
  pub exit_code : ℤ
  pub process_confirmed_gone : Bool
  pub updated_at : Time

pub record LeaseRow : Type 0 where
  pub task_run_id : String
  pub released_at : Option Time

pub record Database : Type 0 where
  pub runs : Map RunRow
  pub events : List EventRow
  pub leases : List LeaseRow

abbrev pub sequence_in : String → String → EventRow → Option ℕ
sequence_in run_id token row =
    if row.task_run_id == run_id
    then elim row.agent [ none ↦ none | some (t, n) ↦ if t == token then some n else none ]
    else none

-- The agent sequences of a run under a token, in the order of the rows.
unfoldable pub sequences : String → String → List EventRow → List ℕ
sequences run_id token [] = []
sequences run_id token (row ∷ rows) =
    let rest = sequences run_id token rows in
    elim (sequence_in run_id token row) [ none ↦ rest | some n ↦ n ∷ rest ]

abbrev pub max_of : List ℕ → ℕ
max_of [] = 0
max_of (n ∷ ns) = let m = max_of ns in if ltb m n then n else m

-- `COALESCE(MAX(agent_sequence),0)+1`
unfoldable pub next_agent_sequence : String → String → List EventRow → ℕ
unfolding sequences
next_agent_sequence run_id token rows = max_of (sequences run_id token rows) + 1

-- `COALESCE(MAX(sequence),-1)+1`
abbrev pub next_order : String → List EventRow → ℕ
next_order run_id [] = 0
next_order run_id (row ∷ rows) =
    let m = next_order run_id rows in
    if row.task_run_id == run_id && ltb m (row.order + 1) then row.order + 1 else m

abbrev pub has_sequence : RunEvent → EventRow → Bool
has_sequence e row = elim (sequence_in e.run_id e.execution_token row) [
  | none ↦ false
  | some n ↦ n == e.sequence
]

unfoldable pub find_event : RunEvent → List EventRow → Option EventRow
find_event e rows = find (has_sequence e) rows

-- The stored event says the same as the one that arrives.
unfoldable pub same_event : RunEvent → EventRow → Bool
same_event e row =
    row.event_type == e.type
    && row.exit_code == e.exit_code
    && row.message == e.message
    && equal_usage row.usage e.usage

abbrev pub new_row : RunEvent → RunState → RunState → List EventRow → EventRow
new_row e from to rows = record {
  task_run_id = e.run_id;
  order = next_order e.run_id rows;
  event_type = e.type;
  state = to;
  message = e.message;
  exit_code = e.exit_code;
  usage = e.usage;
  automatic_retry = not (terminal from) && (to == RunState.failed || to == RunState.timed_out);
  occurred_at = e.occurred_at;
  agent = some (e.execution_token, e.sequence);
}

abbrev started : RunState → Option Time → Time → Option Time
started RunState.running none at = some at
started to old at = old

abbrev pub update_run : RunEvent → RunState → RunRow → RunRow
update_run e to r = record r {
  state = to;
  started_at = started to r.started_at e.occurred_at;
  finished_at = if terminal to then some e.occurred_at else r.finished_at;
  exit_code = if terminal to then e.exit_code else r.exit_code;
  process_confirmed_gone = terminal to;
  updated_at = e.occurred_at;
}

abbrev pub release_row : String → Time → LeaseRow → LeaseRow
release_row run_id at l = elim l.released_at [
  | none ↦ if l.task_run_id == run_id then record l { released_at = some at } else l
  | some _ ↦ l
]

unfoldable pub commit_event : RunEvent → RunState → RunRow → Database → Database
commit_event e to r db = record {
  runs = insert e.run_id (update_run e to r) db.runs;
  events = db.events ++ new_row e r.state to db.events ∷ [];
  leases = if terminal to then map (release_row e.run_id e.occurred_at) db.leases else db.leases;
}

-- From the test of the sequence on.
unfoldable pub append_event : RunEvent → RunState → RunRow → Database → Result Error Bool × Database
unfolding commit_event next_agent_sequence valid_agent_transition
append_event e to r db =
    if e.sequence != next_agent_sequence e.run_id e.execution_token db.events
    then (err run_event_sequence, db)
    else if not (valid_agent_transition r.state to)
    then (err invalid_run_event, db)
    else (ok true, commit_event e to r db)

-- `ApplyRunEvent`; `available` tells whether the database carries the transaction out.
unfoldable pub apply_run_event :
    Bool → RunEvent → RunState → Database → Result Error Bool × Database
unfolding append_event find_event same_event
apply_run_event available e to db =
    if not available then (err failure, db) else elim (lookup e.run_id db.runs) [
      | none ↦ (err run_not_found, db)
      | some r ↦
          if r.token != e.execution_token
          then (err token_mismatch, db)
          else elim (find_event e db.events) [
            | some row ↦ (if same_event e row then ok false else err run_event_conflict, db)
            | none ↦ append_event e to r db
          ]
    ]

abbrev bad_usage : Option ResourceUsage → Bool
bad_usage none = false
bad_usage (some u) = not (valid_usage u)

abbrev dated : RunEvent → Time → RunEvent
dated e now = if is_zero e.occurred_at then record e { occurred_at = now } else e

abbrev without_flag : Result Error Bool × Database → Result Error (Unit {0}) × Database
without_flag (ok _, db) = (ok tt, db)
without_flag (err x, db) = (err x, db)

-- `EventService.Apply`
unfoldable pub apply : Bool → Time → RunEvent → Database → Result Error (Unit {0}) × Database
unfolding apply_run_event state_for_agent_event
apply available now e db = elim (state_for_agent_event e.type) [
  | none ↦ (err invalid_run_event, db)
  | some to ↦
      if is_blank e.run_id || is_blank e.execution_token || e.sequence == 0 || bad_usage e.usage
      then (err invalid_run_event, db)
      else without_flag (apply_run_event available (dated e now) to db)
]
