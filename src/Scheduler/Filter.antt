-- ===== src/Scheduler/Filter.antt =====
-- internal/scheduler/filter.go: the servers that may take a run.
pub mod Laws
use konzhitai.Prelude.{
  ℕ, ◌≤◌, ◌≡◌, refl, ◌↔◌, Bool, true, false, not, ◌&&◌, ◌||◌, String, Map, lookup, Option, none,
  some, List, [], ◌∷◌, arith, any, all, All, contains, codes, trim_codes, equal_fold, if◌then◌else◌,
  ◌==◌, ◌!=◌, string_eq,
}
use konzhitai.Prelude.Int.{ℤ, pos, ◌≤ℤ◌, ◌<ℤ◌, ltb_ℤ, leb_ℤ}
use konzhitai.Task.{Run, Resources}
use konzhitai.Server.{Snapshot, Status}
use konzhitai.Scheduler.Types.{Candidate}

-- Reads of a map with Go's zero value for a missing key.
abbrev pub text_at : Map String → String → String
text_at m k = elim (lookup k m) [ none ↦ "" | some v ↦ v ]

abbrev pub flag_at : Map Bool → String → Bool
flag_at m k = elim (lookup k m) [ none ↦ false | some b ↦ b ]

unfoldable pub labels_match : Map String → Map String → Bool
labels_match [] available = true
labels_match ((key, value) ∷ required) available =
    if text_at available key != value then false else labels_match required available

unfoldable pub runtime_available : String → List String → Bool
runtime_available required [] = false
runtime_available required (name ∷ runtimes) =
    if equal_fold (trim_codes (codes name)) (trim_codes (codes required))
    then true
    else runtime_available required runtimes

abbrev pub is_online : Status → Bool
is_online Status.online = true
is_online _ = false

abbrev pub default_weight : ℤ → ℤ
default_weight weight = if leb_ℤ weight (pos 0) then pos 100 else weight

abbrev pub candidate : Run → Snapshot → Candidate
candidate run item = record {
  server_id = item.id;
  total = record {
    cpu_millicores = item.cpu_total_millicores;
    memory_bytes = item.memory_total_bytes;
    disk_bytes = item.disk_total_bytes;
  };
  available = record {
    cpu_millicores = item.cpu_available_millicores;
    memory_bytes = item.memory_available_bytes;
    disk_bytes = item.disk_available_bytes;
  };
  running_tasks = item.running_tasks;
  max_concurrency = item.max_concurrency;
  script_cached = flag_at item.ready_script_versions run.script_version_id;
  fairness_score = item.fairness_score;
  scheduling_weight = default_weight item.scheduling_weight;
}

-- The body of the loop; `none` is `continue`.
unfoldable pub consider : Run → Snapshot → Option Candidate
consider run item =
    if not (is_online item.status) || not item.enabled || item.is_draining
    then none
    else if not (labels_match run.required_labels item.labels)
    then none
    else if not (runtime_available run.required_runtime item.runtimes)
    then none
    else if run.requires_artifacts && not (contains item.agent_capabilities "run_artifacts_v1")
    then none
    else if leb_ℤ item.max_concurrency (pos 0) || leb_ℤ item.max_concurrency item.running_tasks
    then none
    else if flag_at item.blocked_script_versions run.script_version_id
    then none
    else if ltb_ℤ item.cpu_available_millicores run.resources.cpu_millicores
    then none
    else if ltb_ℤ item.memory_available_bytes run.resources.memory_bytes
    then none
    else if ltb_ℤ item.disk_available_bytes run.resources.disk_bytes
    then none
    else some (candidate run item)

unfoldable pub filter : Run → List Snapshot → List Candidate
filter run [] = []
filter run (item ∷ servers) = elim (consider run item) [
  | none ↦ filter run servers
  | some c ↦ c ∷ filter run servers
]
