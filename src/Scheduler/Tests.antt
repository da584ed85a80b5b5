-- ===== src/Scheduler/Tests.antt =====
-- The scheduler on a small store: one server, one reservation flag, an `Assign` that is refused.
use mathlib.Core.List.{Memᴰ, Perm}
use konzhitai.Prelude.{
  ℕ, ◌*◌, ◌≤◌, ◌≡◌, ◌≢◌, ◌↔◌, refl, Bool, true, false, ◌&&◌, String, Option, none, some, List, [],
  ◌∷◌, Result, ok, err, arith, if◌then◌else◌, ◌==◌, string_eq, String_discrete, lookup,
}
use konzhitai.Prelude.Int.{ℤ, pos, ◌*ℤ◌, ◌+ℤ◌, ◌-ℤ◌, ◌/ℤ◌}
use konzhitai.Prelude.Sort.{sort}
use konzhitai.Task.{Run, RunState, TriggerType}
use konzhitai.Server.{Snapshot, Status}
use konzhitai.Scheduler.Types.{Outcome, Lease, LeaseRequest, Candidate}
use konzhitai.Scheduler.Filter.{filter, candidate}
use konzhitai.Scheduler.Filter.Laws.{Source, mem-filter_iff}
use konzhitai.Scheduler.Score.{score, rank_candidates}
use konzhitai.Scheduler.Score.Laws.{score_range, Ranked, rank_candidates-Ranked, effective_weight}
use konzhitai.Scheduler.Queue.{Queue, new_queue, push, pop, len}
use konzhitai.Scheduler.Queue.Laws.{IsValid, Pops, pop-Pops, push-stores}
use konzhitai.Scheduler.Service.{Stores, Service}
use konzhitai.Scheduler.Service.Schedule.{schedule_one}
use konzhitai.Lease.Scripts.{empty_server}
use konzhitai.Lease.Traces.{empty-IsBalanced}
use konzhitai.Lease.Scheduling.{Keys, redis_stores, holds_key, schedule_one-frees_keys}
use konzhitai.Scheduler.Service.Waiting.{Beside, schedule_one-Beside}

abbrev run : String → ℤ → Run
run id priority = record {
  requires_artifacts = false;
  id = id;
  definition_id = "d1";
  script_version_id = "v1";
  trigger_type = TriggerType.manual;
  state = RunState.queued;
  required_labels = ("zone", "a") ∷ [];
  required_runtime = "Python3";
  priority = priority;
  resources = record { cpu_millicores = pos 500; memory_bytes = pos 1024; disk_bytes = pos 2048 };
  max_concurrency = pos 2;
  timeout_seconds = pos 60;
  max_wait_seconds = pos 0;
  retry_policy = record { max_retries = pos 0; backoff_seconds = pos 0 };
  idempotent = false;
  scheduled_for = none;
  queued_at = 1_000_000_000;
  created_at = 1_000_000_000;
}

abbrev server : String → ℤ → Snapshot
server id free_cpu = record {
  agent_capabilities = [];
  id = id;
  status = Status.online;
  enabled = true;
  is_draining = false;
  labels = ("zone", "a") ∷ [];
  runtimes = " python3 " ∷ [];
  max_concurrency = pos 4;
  running_tasks = pos 1;
  cpu_total_millicores = pos 4000;
  cpu_available_millicores = free_cpu;
  memory_total_bytes = pos 8192;
  memory_available_bytes = pos 4096;
  disk_total_bytes = pos 8192;
  disk_available_bytes = pos 4096;
  ready_script_versions = ("v1", true) ∷ [];
  blocked_script_versions = [];
  scheduling_weight = pos 100;
  fairness_score = pos 50;
}

abbrev lease_of : LeaseRequest → Lease
lease_of q = record {
  id = "lease";
  run_id = q.run_id;
  server_id = q.server_id;
  resources = q.required;
  expires_at = q.now;
}

-- The state tells whether the server s1 is reserved.
abbrev small_stores : List Snapshot → Stores
small_stores servers = record {
  State = Bool;
  now = λ w. (2_000_000_000, w);
  new_token = λ w. ("token", w);
  get = λ i w. (ok (run i (pos 1)), w);
  list_queued = λ w. (ok [], w);
  count_active = λ d w. (ok (pos 0), w);
  assign = λ a w. (ok false, w);
  expire = λ i t w. (ok false, w);
  set_queue_reason = λ i m w. (ok tt, w);
  snapshots = λ r w. (ok servers, w);
  try_reserve = λ q w. (ok (some (lease_of q)), if q.server_id == "s1" then true else w);
  release = λ l w. (ok tt, if l.server_id == "s1" then false else w);
  raise_alert = λ e w. (ok tt, w);
  retry_failed = λ t w. (ok tt, w);
  list_released = λ t w. (ok [], w);
  list_active = λ t w. (ok [], w);
  restore = λ l t w. (ok tt, w);
}

abbrev one_server : List Snapshot
one_server = server "s1" (pos 2000) ∷ []

-- The same run over the keys of Redis: the amounts are taken and given back.
abbrev empty_keys : Keys
empty_keys = record { servers = λ v. empty_server; balanced = λ v. empty-IsBalanced }

abbrev start_keys : Service (redis_stores true (small_stores one_server))
start_keys = record { world = (empty_keys, false); queue = record { items = [] } }

attempted_keys :
    (schedule_one (redis_stores true (small_stores one_server)) "r1" start_keys).0 ≡ Outcome.queued
unfolding schedule_one filter rank_candidates String_discrete sort
    konzhitai.Scheduler.Filter.consider konzhitai.Scheduler.Filter.labels_match
    konzhitai.Scheduler.Filter.runtime_available konzhitai.Prelude.equal_fold
    konzhitai.Prelude.trim_codes konzhitai.Lease.Store.try_reserve
    konzhitai.Lease.Store.valid_request konzhitai.Scheduler.Service.lease_ttl ◌+ℤ◌ ◌*ℤ◌
    konzhitai.Lease.Scripts.reserve empty_server konzhitai.Prelude.Int.minus
attempted_keys = refl

schedule_one-frees_keys_example :
    holds_key true
      (small_stores one_server)
      "r1"
      "s1"
      (schedule_one (redis_stores true (small_stores one_server)) "r1" start_keys).2.world
    ≡ false
unfolding empty_server
schedule_one-frees_keys_example =
    schedule_one-frees_keys true (small_stores one_server) (λ i w r h. ground arith) "r1" "s1"
      start_keys refl (λ h. cc (attempted_keys, h))

mem-filter_iff_example :
    Memᴰ
      (candidate (run "r1" (pos 1)) (server "s1" (pos 2000)))
      (filter (run "r1" (pos 1)) one_server)
    ↔ Source (run "r1" (pos 1)) one_server (candidate (run "r1" (pos 1)) (server "s1" (pos 2000)))
mem-filter_iff_example =
    mem-filter_iff (run "r1" (pos 1)) one_server
      (candidate (run "r1" (pos 1)) (server "s1" (pos 2000)))

abbrev near : Candidate
near = candidate (run "r1" (pos 1)) (server "s1" (pos 2000))

abbrev far : Candidate
far = candidate (run "r1" (pos 1)) (server "s2" (pos 4000))

score_range_example :
    (s : ℕ) × (score (run "r1" (pos 1)) near ≡ pos s) × (s ≤ 100 * effective_weight near)
score_range_example = score_range (run "r1" (pos 1)) near (ground arith)

score-near : score (run "r1" (pos 1)) near ≡ pos 6002
unfolding score String_discrete ◌*ℤ◌ ◌+ℤ◌ ◌-ℤ◌ ◌/ℤ◌ konzhitai.Scheduler.Score.base_score
    konzhitai.Scheduler.Score.ratio konzhitai.Scheduler.Score.clamp
score-near = refl

rank_candidates-Ranked_example :
    Perm (rank_candidates (run "r1" (pos 1)) (near ∷ far ∷ [])) (near ∷ far ∷ [])
    × Ranked (run "r1" (pos 1)) (rank_candidates (run "r1" (pos 1)) (near ∷ far ∷ []))
rank_candidates-Ranked_example = rank_candidates-Ranked (run "r1" (pos 1)) (near ∷ far ∷ [])

-- The second run goes first, by its priority.
abbrev two : Queue
two = record { items = ("r2", run "r2" (pos 1)) ∷ ("r1", run "r1" (pos 5)) ∷ [] }

abbrev one : Queue
one = record { items = ("r2", run "r2" (pos 1)) ∷ [] }

two-IsValid : IsValid two
unfolding String_discrete
two-IsValid = record { distinct = (refl, (refl, tt)); keyed = (refl, (refl, tt)) }

popped : pop two ≡ some (run "r1" (pos 5), one)
unfolding pop String_discrete konzhitai.Scheduler.Queue.sort_runs sort
    konzhitai.Scheduler.Queue.runs_before
popped = refl

pop-Pops_example : Pops two (run "r1" (pos 5)) one
pop-Pops_example = pop-Pops two one (run "r1" (pos 5)) two-IsValid popped

push-stores_example :
    IsValid (push two (run "r3" (pos 2)))
    × ((run "r3" (pos 2)).id ≢ ""
        → lookup "r3" (push two (run "r3" (pos 2))).items ≡ some (run "r3" (pos 2)))
    × ((k : String) → k ≢ "r3" → lookup k (push two (run "r3" (pos 2))).items ≡ lookup k two.items)
    × ((run "r3" (pos 2)).id ≡ "" → push two (run "r3" (pos 2)) ≡ two)
push-stores_example = push-stores two (run "r3" (pos 2)) two-IsValid

-- No server: the run with the higher priority is put back, and each round of the loop takes it again.
abbrev waiting : Service (small_stores [])
waiting = record {
  world = false;
  queue = record { items = ("r2", run "r2" (pos 0)) ∷ ("r1", run "r1" (pos 1)) ∷ [] };
}

abbrev behind : Queue
behind = record { items = ("r2", run "r2" (pos 0)) ∷ [] }

head_popped : pop waiting.queue ≡ some (run "r1" (pos 1), behind)
unfolding pop String_discrete konzhitai.Scheduler.Queue.sort_runs sort
    konzhitai.Scheduler.Queue.runs_before
head_popped = refl

put_back :
    schedule_one (small_stores []) "r1" (record waiting { queue = behind })
    ≡ (Outcome.queued, none, waiting)
unfolding schedule_one push String_discrete rank_candidates sort filter
put_back = refl

abbrev waiting_two : Service (small_stores one_server)
waiting_two = record { world = false; queue = two }

schedule_one-Beside_example :
    Beside two "r1" (schedule_one (small_stores one_server) "r1" waiting_two).2.queue
schedule_one-Beside_example =
    schedule_one-Beside (small_stores one_server) "r1" waiting_two (λ w r h. ground arith)
      two-IsValid
