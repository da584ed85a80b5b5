-- ===== src/Task/Events/Applied.antt =====
-- What an accepted event of internal/task/event_service.go has done.
use konzhitai.Prelude.{
  ◌≡◌, ◌⊎◌, inl, inr, Bool, true, false, none, some, lookup, String_discrete, arith, ok, string_eq,
  Option-cases,
}
use konzhitai.Task.{RunState}
use konzhitai.Task.Events.{
  RunEvent, RunRow, Database, apply_run_event, append_event, commit_event, valid_agent_transition,
  find_event, next_agent_sequence,
}

-- The event was appended, and its run moved to the state `to`.
pub record Appended (e : RunEvent) (to : RunState) (db db' : Database) : Type 0 where
  pub row : RunRow
  pub found : lookup e.run_id db.runs ≡ some row
  pub token_matches : row.token ≡ e.execution_token
  pub fresh : find_event e db.events ≡ none
  pub next : e.sequence ≡ next_agent_sequence e.run_id e.execution_token db.events
  pub allowed : valid_agent_transition row.state to ≡ true
  pub result : db' ≡ commit_event e to row db

append_event-Appended :
    (e : RunEvent) (to : RunState) (r : RunRow) (db db' : Database) (b : Bool)
    → lookup e.run_id db.runs ≡ some r
    → r.token ≡ e.execution_token
    → find_event e db.events ≡ none
    → append_event e to r db ≡ (ok b, db')
    → (b ≡ true) × Appended e to db db'
unfolding append_event
append_event-Appended e to r db db' b found same fresh h = (
  ground arith,
  record {
    row = r;
    found = found;
    token_matches = same;
    fresh = fresh;
    next = ground arith;
    allowed = ground arith;
    result = ground arith;
  },
)

-- An accepted event is either a replay, which changes nothing, or is appended.
pub apply_run_event-Appended :
    (available : Bool) (e : RunEvent) (to : RunState) (db db' : Database) (b : Bool)
    → apply_run_event available e to db ≡ (ok b, db')
    → ((b ≡ false) × (db' ≡ db)) ⊎ ((b ≡ true) × Appended e to db db')
unfolding apply_run_event
apply_run_event-Appended available e to db db' b h = elim (Option-cases (lookup e.run_id db.runs)) [
  | inl missing ↦ absurd (ground arith)
  | inr (r, found) ↦ elim (String_discrete r.token e.execution_token) [
    | no other ↦ absurd (ground arith)
    | yes same ↦ elim (Option-cases (find_event e db.events)) [
      | inr (row, seen) ↦ inl (ground arith, ground arith)
      | inl fresh ↦ inr (append_event-Appended e to r db db' b found same fresh (ground arith))
    ]
  ]
]
