-- ===== src/Scheduler/Queue.antt =====
-- internal/scheduler/queue.go: the waiting runs, keyed by their id. The mutex makes each operation
-- one step. A map is iterated in any order; the list of its entries stands for one.
pub mod Laws
use konzhitai.Prelude.{
  ℕ, Bool, true, false, String, Map, insert, erase, Option, none, some, List, [], ◌∷◌, map, length,
  if◌then◌else◌, ◌==◌, string_eq,
}
use konzhitai.Prelude.Int.{ltb_ℤ}
use konzhitai.Prelude.Sort.{sort}
use konzhitai.Prelude.TextOrder.{str_less}
use konzhitai.Clock.{before}
use konzhitai.Task.{Run}

pub record Queue : Type 0 where
  pub items : Map Run

unfoldable pub new_queue : Queue
new_queue = record { items = [] }

unfoldable pub push : Queue → Run → Queue
push q run = if run.id == "" then q else record q { items = insert run.id run q.items }

-- The `less` of `sortRuns`.
unfoldable pub runs_before : Run → Run → Bool
runs_before left right =
    if ltb_ℤ right.priority left.priority
    then true
    else if ltb_ℤ left.priority right.priority
    then false
    else if before left.queued_at right.queued_at
    then true
    else if before right.queued_at left.queued_at
    then false
    else str_less left.id right.id

unfoldable pub sort_runs : List Run → List Run
sort_runs items = sort runs_before items

abbrev pub values : Map Run → List Run
values = map (λ e. e.1)

abbrev take_first : Queue → List Run → Option (Run × Queue)
take_first q [] = none
take_first q (selected ∷ rest) = some (selected, record q { items = erase selected.id q.items })

unfoldable pub pop : Queue → Option (Run × Queue)
pop q = take_first q (sort_runs (values q.items))

unfoldable pub remove : Queue → String → Queue
remove q run_id = record q { items = erase run_id q.items }

unfoldable pub len : Queue → ℕ
len q = length q.items
