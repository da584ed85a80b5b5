-- ===== src/Task/Tests.antt =====
-- Events of internal/task/event_service.go on a database with one run.
use konzhitai.Prelude.{
  ℕ, ◌≡◌, refl, inl, true, false, String, String_discrete, Option, none, some, [], ◌∷◌, lookup, ok,
}
use konzhitai.Prelude.Int.{pos}
use konzhitai.Clock.{Time}
use konzhitai.Task.{RunState, RunState_discrete}
use konzhitai.Task.Events.{RunEvent, RunRow, EventRow, Database, apply_run_event}
use konzhitai.Task.Events.Sequence.{Numbered, apply_run_event-Numbered, apply_run_event-replay}
use konzhitai.Task.Events.Terminal.{apply_run_event-terminal}

abbrev event : ℕ → String → RunEvent
event n type = record {
  run_id = "r1";
  execution_token = "t";
  sequence = n;
  type = type;
  exit_code = pos 0;
  message = "";
  usage = none;
  occurred_at = 50;
}

abbrev row : RunState → Option Time → RunRow
row state started = record {
  token = "t";
  state = state;
  started_at = started;
  finished_at = none;
  exit_code = pos 0;
  process_confirmed_gone = false;
  updated_at = 10;
}

abbrev assigned_run : Database
assigned_run = record {
  runs = ("r1", row RunState.assigned none) ∷ [];
  events = [];
  leases = record { task_run_id = "r1"; released_at = none } ∷ [];
}

abbrev stored : ℕ → ℕ → String → RunState → EventRow
stored order n type state = record {
  task_run_id = "r1";
  order = order;
  event_type = type;
  state = state;
  message = "";
  exit_code = pos 0;
  usage = none;
  automatic_retry = false;
  occurred_at = 50;
  agent = some ("t", n);
}

abbrev running_run : Database
running_run = record {
  runs = ("r1", record (row RunState.running (some 50)) { updated_at = 50 }) ∷ [];
  events = stored 0 1 "started" RunState.running ∷ [];
  leases = record { task_run_id = "r1"; released_at = none } ∷ [];
}

begun :
    apply_run_event true (event 1 "started") RunState.running assigned_run ≡ (ok true, running_run)
unfolding apply_run_event String_discrete RunState_discrete
begun = refl

empty-Numbered : Numbered assigned_run
unfolding konzhitai.Task.Events.sequences
empty-Numbered run_id token = tt

apply_run_event-Numbered_example : Numbered running_run
apply_run_event-Numbered_example =
    apply_run_event-Numbered true (event 1 "started") RunState.running assigned_run running_run true
      begun empty-Numbered

apply_run_event-replay_example :
    apply_run_event true (event 1 "started") RunState.running running_run ≡ (ok false, running_run)
apply_run_event-replay_example =
    apply_run_event-replay true (event 1 "started") RunState.running assigned_run running_run begun

abbrev ended_run : Database
ended_run = record {
  runs = ("r1", row RunState.succeeded (some 50)) ∷ [];
  events = [];
  leases = [];
}

abbrev repeated_run : Database
repeated_run = record {
  runs =
      (
        "r1",
        record (row RunState.succeeded (some 50)) {
          finished_at = some 50;
          process_confirmed_gone = true;
          updated_at = 50;
        },
      )
      ∷ [];
  events = stored 0 1 "succeeded" RunState.succeeded ∷ [];
  leases = [];
}

repeated :
    apply_run_event true (event 1 "succeeded") RunState.succeeded ended_run
    ≡ (ok true, repeated_run)
unfolding apply_run_event String_discrete RunState_discrete
repeated = refl

apply_run_event-terminal_example :
    (r : RunRow) × (lookup "r1" repeated_run.runs ≡ some r) × (r.state ≡ RunState.succeeded)
unfolding String_discrete
apply_run_event-terminal_example =
    apply_run_event-terminal true (event 1 "succeeded") RunState.succeeded ended_run repeated_run
      true "r1" (row RunState.succeeded (some 50)) repeated refl (inl refl)
