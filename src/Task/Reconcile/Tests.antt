-- ===== src/Task/Reconcile/Tests.antt =====
-- A failed run with its retry, and a report of a server with three runs.
use konzhitai.Prelude.{
  ℕ, string_eq, ◌≡◌, ◌≢◌, refl, true, false, String, String_discrete, text_ne, none, some, [], ◌∷◌,
  ok, arith,
}
use konzhitai.Task.{RunState}
use konzhitai.Task.Reconcile.{RunRow, Database, RunningReport, reconcile_running}
use konzhitai.Task.Reconcile.Retries.{retry_run}
use konzhitai.Task.Reconcile.Retries.Lineage.{Lineage, retry_run-Lineage}
use konzhitai.Task.Reconcile.Retries.Replay.{retry_run-replay}
use konzhitai.Task.Reconcile.Reported.{EachReported, reconcile_running-Reported}

a_ne_b : ◌≢◌ {A = String} "a" "b"
unfolding String_discrete
a_ne_b = text_ne "a" "b" refl

a_ne_c : ◌≢◌ {A = String} "a" "c"
unfolding String_discrete
a_ne_c = text_ne "a" "c" refl

b_ne_c : ◌≢◌ {A = String} "b" "c"
unfolding String_discrete
b_ne_c = text_ne "b" "c" refl

abbrev run : String → RunState → ℕ → RunRow
run id state n = record {
  id = id;
  definition_id = "d";
  copied = "";
  assigned_server_id = some "s";
  token = id;
  state = state;
  queued_at = 1;
  finished_at = none;
  updated_at = 5;
  created_at = 1;
  attempt = n;
  retry_of = none;
  max_retries = 2;
  retry_backoff = 10;
  idempotent = true;
  process_confirmed_gone = true;
}

abbrev failed_run : Database
failed_run = record {
  runs = run "a" RunState.failed 1 ∷ [];
  events = [];
  leases = [];
  definitions = ("d", true) ∷ [];
}

abbrev retried_run : Database
retried_run = (retry_run true false "b" "a" 7 failed_run).1

retried : retry_run true false "b" "a" 7 failed_run ≡ (ok "b", retried_run)
unfolding retry_run String_discrete
retried = refl

retry_run-replay_example : retry_run true false "c" "a" 9 retried_run ≡ (ok "b", retried_run)
retry_run-replay_example = retry_run-replay false "b" "c" "a" "b" 7 9 failed_run retried_run retried

retry_run-Lineage_example : Lineage (retry_run true false "b" "a" 7 failed_run).1.runs
retry_run-Lineage_example =
    retry_run-Lineage true false "b" "a" 7 failed_run ((tt, tt), ((omega arith, λ _. refl), tt))
      (a_ne_b, tt)

abbrev three_runs : Database
three_runs = record {
  runs = run "a" RunState.assigned 1 ∷ run "b" RunState.unknown 1 ∷ run "c" RunState.failed 1 ∷ [];
  events = [];
  leases = [];
  definitions = [];
}

abbrev report : RunningReport
report = record {
  server_id = "s";
  reported_at = 8;
  authoritative = true;
  processes = record { usage = none; run_id = "a"; execution_token = "a" } ∷ [];
}

reconcile_running-Reported_example :
    let (result, db) = reconcile_running true report 9 three_runs in
    (result ≡ ok tt) × EachReported report 9 three_runs.runs db.runs
reconcile_running-Reported_example =
    reconcile_running-Reported report 9 three_runs
      ((a_ne_b, (a_ne_c, tt)), ((b_ne_c, tt), (tt, tt)))
