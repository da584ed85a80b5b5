-- ===== src/Scheduler/Score.antt =====
-- internal/scheduler/score.go: the weight of a candidate, and the order of trial.
pub mod Laws
use konzhitai.Prelude.{ℕ, Bool, true, false, ◌||◌, String, List, if◌then◌else◌}
use konzhitai.Prelude.Int.{ℤ, pos, leb_ℤ, ltb_ℤ, ◌+ℤ◌, ◌-ℤ◌, ◌*ℤ◌, ◌/ℤ◌}
use konzhitai.Prelude.Sort.{sort}
use konzhitai.Prelude.TextOrder.{str_less}
use konzhitai.Task.{Run, Resources}
use konzhitai.Scheduler.Types.{Candidate}

abbrev pub score_basis : ℤ
score_basis = pos 10000

unfoldable pub clamp : ℤ → ℤ → ℤ → ℤ
clamp value minimum maximum =
    if ltb_ℤ value minimum then minimum else if ltb_ℤ maximum value then maximum else value

unfoldable pub ratio : ℤ → ℤ → ℤ
ratio available total =
    if leb_ℤ total (pos 0) || leb_ℤ available (pos 0)
    then pos 0
    else clamp (available *ℤ score_basis /ℤ total) (pos 0) score_basis

unfoldable pub base_score : Candidate → ℤ
base_score c =
    let memory = ratio c.available.memory_bytes c.total.memory_bytes in
    let cpu = ratio c.available.cpu_millicores c.total.cpu_millicores in
    let concurrency = ratio (c.max_concurrency -ℤ c.running_tasks) c.max_concurrency in
    let cache = if c.script_cached then score_basis else pos 0 in
    let fairness = clamp c.fairness_score (pos 0) score_basis in
    (memory *ℤ pos 35
      +ℤ cpu *ℤ pos 25
      +ℤ concurrency *ℤ pos 20
      +ℤ cache *ℤ pos 15
      +ℤ fairness *ℤ pos 5)
    /ℤ pos 100

unfoldable pub score : Run → Candidate → ℤ
score _ c =
    let weight = if leb_ℤ c.scheduling_weight (pos 0) then pos 100 else c.scheduling_weight in
    base_score c *ℤ weight /ℤ pos 100

-- The `less` of the sort.
unfoldable pub ranks_before : Run → Candidate → Candidate → Bool
ranks_before run left right =
    if ltb_ℤ (score run right) (score run left)
    then true
    else if ltb_ℤ (score run left) (score run right)
    then false
    else str_less left.server_id right.server_id

unfoldable pub rank_candidates : Run → List Candidate → List Candidate
rank_candidates run candidates = sort (ranks_before run) candidates
