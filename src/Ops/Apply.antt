-- ===== src/Ops/Apply.antt =====
-- `Apply` and `MarkApplied` of internal/ops/postgres.go: the rows of `alert_rule_states` as a function of their key, and
-- the maps of the loop likewise. A transaction that fails changes nothing; `available` tells whether the database
-- carries it out.
pub mod Rows
pub mod Changes
use konzhitai.Prelude.{
  String, String_discrete, Bool, true, false, not, ◌&&◌, Option, none, some, List, [], ◌∷◌, ◌++◌,
  if◌then◌else◌, Eq, decide, ◌==◌, ◌!=◌, Result, ok, err,
}
use konzhitai.Prelude.Int.{pos}
use konzhitai.Ops.{RuleState, RuleKey, Evaluation, is_stale, advance}

unfoldable pub RuleKey_discrete : Discrete RuleKey
RuleKey_discrete = hlevel String_discrete

instance abbrev pub key_eq : Eq RuleKey
key_eq = record { beq = λ a b. decide (RuleKey_discrete a b) }

instance abbrev pub bool_eq : Eq Bool
bool_eq = record { beq = λ a b. if a then b else not b }

module _ {ℓ} {A : Type ℓ} where
  abbrev pub put : RuleKey → A → (RuleKey → Option A) → RuleKey → Option A
  put k v m j = if k == j then some v else m j

-- `Transition`
pub record Transition (Value : Type 0) : Type 0 where
  pub evaluation : Evaluation Value
  pub desired_active : Bool

abbrev pub Rows : Type 0 → Type 0
Rows Value = RuleKey → Option (RuleState Value)

-- The state of the loop.
pub record Loop (Value : Type 0) : Type 0 where
  pub rows : Rows Value
  pub states : Rows Value
  pub latest : RuleKey → Option (Evaluation Value)
  pub order : List RuleKey

module _ {Value : Type 0} where
  -- The row that `loadRuleState` inserts; the time is the epoch of Unix.
  abbrev pub new_row : RuleState Value
  new_row = record {
    active = false;
    desired_active = false;
    consecutive_bad = pos 0;
    consecutive_good = pos 0;
    last_value = none;
    last_evaluated_at = 62_135_596_800_000_000_000;
  }

  abbrev pub row_or_new : Option (RuleState Value) → RuleState Value
  row_or_new none = new_row
  row_or_new (some s) = s

  -- The state of the key: as it was left in the loop, or as `loadRuleState` reads it after its insertion.
  abbrev pub cached_or_row : Option (RuleState Value) → Option (RuleState Value) → RuleState Value
  cached_or_row (some s) row = s
  cached_or_row none row = row_or_new row

  abbrev pub state_of : RuleKey → Loop Value → RuleState Value
  state_of k l = cached_or_row (l.states k) (l.rows k)

  abbrev pub with_row :
      RuleKey → Option (RuleState Value) → Option (RuleState Value) → Rows Value → Rows Value
  with_row k none none rows = put k new_row rows
  with_row k cached row rows = rows

  abbrev pub load_rows : RuleKey → Loop Value → Rows Value
  load_rows k l = with_row k (l.states k) (l.rows k) l.rows

  abbrev pub next_order : Evaluation Value → Loop Value → List RuleKey
  next_order e l = elim (l.latest e.key) [ some _ ↦ l.order | none ↦ l.order ++ e.key ∷ [] ]

  -- One evaluation. The UPDATE does not write `active`, which `advance` leaves as it was read.
  unfoldable pub evaluate : Evaluation Value → Loop Value → Loop Value
  evaluate e l =
      let state = state_of e.key l in
      let rows = load_rows e.key l in
      let next = advance e state in
      record {
        rows = if is_stale e state then rows else put e.key next rows;
        states = put e.key next l.states;
        latest = put e.key e l.latest;
        order = next_order e l;
      }

  unfoldable pub evaluate_all : List (Evaluation Value) → Loop Value → Loop Value
  unfolding evaluate
  evaluate_all [] l = l
  evaluate_all (e ∷ es) l = evaluate_all es (evaluate e l)

  abbrev pub start : Rows Value → Loop Value
  start rows = record { rows = rows; states = λ k. none; latest = λ k. none; order = [] }

  -- The transitions, in the order in which the keys came. A key of the order has a state and an evaluation.
  abbrev pub transition :
      Option (RuleState Value) → Option (Evaluation Value) → List (Transition Value)
  transition (some s) (some e) =
      if s.desired_active != s.active
      then record { evaluation = e; desired_active = s.desired_active } ∷ []
      else []
  transition _ _ = []

  unfoldable pub transitions : Loop Value → List RuleKey → List (Transition Value)
  transitions l [] = []
  transitions l (k ∷ ks) = transition (l.states k) (l.latest k) ++ transitions l ks

  -- `Apply`
  unfoldable pub apply :
      Bool → List (Evaluation Value) → Rows Value → Option (List (Transition Value)) × Rows Value
  unfolding evaluate_all transitions
  apply available es rows =
      let l = evaluate_all es (start rows) in
      if not available then (none, rows) else (some (transitions l l.order), l.rows)

  -- `MarkApplied`
  abbrev pub marked : Bool → Option (RuleState Value) → Option (RuleState Value)
  marked desired none = none
  marked desired (some s) =
      if s.desired_active == desired then some (record s { active = desired }) else some s

  unfoldable pub mark_applied : Bool → RuleKey → Bool → Rows Value → Bool × Rows Value
  mark_applied available k desired rows =
      if not available
      then (false, rows)
      else (true, λ j. if k == j then marked desired (rows j) else rows j)
