-- ===== src/Scheduler/Filter/Laws.antt =====
-- What `Filter` lets through, stated apart from the order of its tests.
use mathlib.Core.List.{Memᴰ}
use konzhitai.Prelude.{
  ◌≡◌, refl, ◌↔◌, inl, inr, true, false, String, Map, Option, none, some, List, [], ◌∷◌, arith, All,
  contains, codes, trim_codes, equal_fold, Bool-cases, ◌==◌, string_eq,
}
use konzhitai.Prelude.Int.{pos, ◌≤ℤ◌, ◌<ℤ◌}
use konzhitai.Task.{Run}
use konzhitai.Server.{Snapshot, Status}
use konzhitai.Scheduler.Types.{Candidate}
use konzhitai.Scheduler.Filter.{
  text_at, flag_at, labels_match, runtime_available, candidate, consider, filter,
}

abbrev pub SameRuntime : String → String → Type 0
SameRuntime name required =
    equal_fold (trim_codes (codes name)) (trim_codes (codes required)) ≡ true

-- The server may take the run.
pub record Admits (run : Run) (item : Snapshot) : Type 0 where
  pub online : item.status ≡ Status.online
  pub enabled : item.enabled ≡ true
  pub open_for_work : item.is_draining ≡ false
  pub labels : All (λ e. text_at item.labels e.0 ≡ e.1) run.required_labels
  pub runtime : (name : String) × Memᴰ name item.runtimes × SameRuntime name run.required_runtime
  pub artifacts : run.requires_artifacts ≡ true → Memᴰ "run_artifacts_v1" item.agent_capabilities
  pub limited : pos 0 <ℤ item.max_concurrency
  pub slot : item.running_tasks <ℤ item.max_concurrency
  pub unblocked : flag_at item.blocked_script_versions run.script_version_id ≡ false
  pub cpu : run.resources.cpu_millicores ≤ℤ item.cpu_available_millicores
  pub memory : run.resources.memory_bytes ≤ℤ item.memory_available_bytes
  pub disk : run.resources.disk_bytes ≤ℤ item.disk_available_bytes

contains→mem : (xs : List String) (a : String) → contains xs a ≡ true → Memᴰ a xs
contains→mem [] a h = cc
contains→mem (x ∷ xs) a h = elim (Bool-cases (a == x)) [
  | inl e ↦ Memᴰ.head (ground arith)
  | inr e ↦ Memᴰ.tail (contains→mem xs a (ground arith))
]

mem→contains : (xs : List String) (a : String) → Memᴰ a xs → contains xs a ≡ true
mem→contains [] a m = elim m [ ]
mem→contains (x ∷ xs) a (Memᴰ.head e) = ground arith
mem→contains (x ∷ xs) a (Memᴰ.tail m) = ground (arith, mem→contains xs a m)

labels→All :
    (required available : Map String)
    → labels_match required available ≡ true
    → All (λ e. text_at available e.0 ≡ e.1) required
unfolding labels_match
labels→All [] available h = tt
labels→All (e ∷ required) available h = (ground arith, labels→All required available (ground arith))

All→labels :
    (required available : Map String)
    → All (λ e. text_at available e.0 ≡ e.1) required
    → labels_match required available ≡ true
unfolding labels_match
All→labels [] available h = refl
All→labels (e ∷ required) available h = ground (arith, All→labels required available h.1)

runtime→mem :
    (required : String) (names : List String)
    → runtime_available required names ≡ true
    → (name : String) × Memᴰ name names × SameRuntime name required
unfolding runtime_available
runtime→mem required [] h = cc
runtime→mem required (name ∷ names) h =
    elim (Bool-cases (equal_fold (trim_codes (codes name)) (trim_codes (codes required)))) [
      | inl e ↦ (name, Memᴰ.head refl, e)
      | inr e ↦ let (n, m, s) = runtime→mem required names (ground arith) in (n, Memᴰ.tail m, s)
    ]

mem→runtime :
    (required name : String) (names : List String)
    → Memᴰ name names
    → SameRuntime name required
    → runtime_available required names ≡ true
unfolding runtime_available
mem→runtime required name [] m s = elim m [ ]
mem→runtime required name (x ∷ names) (Memᴰ.head e) s = ground arith
mem→runtime required name (x ∷ names) (Memᴰ.tail m) s =
    ground (arith, mem→runtime required name names m s)

consider→Admits :
    (run : Run) (item : Snapshot) (c : Candidate)
    → consider run item ≡ some c
    → Admits run item × (c ≡ candidate run item)
unfolding consider
consider→Admits run item c h = (
  record {
    online = ground arith;
    enabled = ground arith;
    open_for_work = ground arith;
    labels = labels→All run.required_labels item.labels (ground arith);
    runtime = runtime→mem run.required_runtime item.runtimes (ground arith);
    artifacts = λ needed. contains→mem item.agent_capabilities "run_artifacts_v1" (ground arith);
    limited = ground arith;
    slot = ground arith;
    unblocked = ground arith;
    cpu = ground arith;
    memory = ground arith;
    disk = ground arith;
  },
  ground arith,
)

Admits→consider :
    (run : Run) (item : Snapshot) → Admits run item → consider run item ≡ some (candidate run item)
unfolding consider
Admits→consider run item a = ground (
  arith,
  All→labels run.required_labels item.labels a.labels,
  mem→runtime run.required_runtime a.runtime.0 item.runtimes a.runtime.1 a.runtime.2,
  λ (needed : run.requires_artifacts ≡ true).
      mem→contains item.agent_capabilities "run_artifacts_v1" (a.artifacts needed),
)

abbrev pub Source : Run → List Snapshot → Candidate → Type 0
Source run servers c =
    (item : Snapshot) × Memᴰ item servers × Admits run item × (c ≡ candidate run item)

filter→Source :
    (run : Run) (servers : List Snapshot) (c : Candidate)
    → Memᴰ c (filter run servers)
    → Source run servers c
unfolding filter
filter→Source run [] c m = elim m [ ]
filter→Source run (item ∷ servers) c m =
    step (filter→Source run servers c) (consider run item) refl m
  where
    later : Source run servers c → Source run (item ∷ servers) c
    later (s, m, a, e) = (s, Memᴰ.tail m, a, e)

    step :
        (Memᴰ c (filter run servers) → Source run servers c)
        → (o : Option Candidate) → consider run item ≡ o
        → Memᴰ c (elim o [ none ↦ filter run servers | some d ↦ d ∷ filter run servers ])
        → Source run (item ∷ servers) c
    step earlier none e m = later (earlier m)
    step earlier (some d) e (Memᴰ.head p) =
        let (a, q) = consider→Admits run item c (cc) in (item, Memᴰ.head refl, a, q)
    step earlier (some d) e (Memᴰ.tail m) = later (earlier m)

Admits→filter :
    (run : Run) (servers : List Snapshot) (item : Snapshot)
    → Memᴰ item servers
    → Admits run item
    → Memᴰ (candidate run item) (filter run servers)
unfolding filter
Admits→filter run [] item m a = elim m [ ]
Admits→filter run (x ∷ servers) item (Memᴰ.head e) a =
    rw (← e, Admits→consider run item a, filter) (Memᴰ.head refl)
Admits→filter run (x ∷ servers) item (Memᴰ.tail m) a =
    step (Admits→filter run servers item m a) (consider run x)
  where
    step :
        Memᴰ (candidate run item) (filter run servers)
        → (o : Option Candidate)
        → Memᴰ
            (candidate run item)
            (elim o [ none ↦ filter run servers | some d ↦ d ∷ filter run servers ])
    step m none = m
    step m (some d) = Memᴰ.tail m

-- `Filter` returns exactly the candidates of the listed servers that may take the run: online,
-- enabled, not draining, with the labels, the runtime, the artifact capability where it is needed, a free slot,
-- no block on the script version, and room for the CPU, the memory and the disk.
pub mem-filter_iff :
    (run : Run) (servers : List Snapshot) (c : Candidate)
    → Memᴰ c (filter run servers) ↔ Source run servers c
mem-filter_iff run servers c =
    (filter→Source run servers c, λ s. rw s.3 (Admits→filter run servers s.0 s.1 s.2))
