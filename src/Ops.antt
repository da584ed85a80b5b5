-- ===== src/Ops.antt =====
-- The rules of internal/ops/rules.go and the counting of internal/ops/postgres.go. What a rule measures is a number of
-- Go's type float64, which the counting only stores: its type is a parameter.
pub mod Hysteresis
pub mod Apply
pub mod Rules
pub mod Scan
mod Tests
use konzhitai.Prelude.{
  ℕ, String, Bool, true, false, not, ◌&&◌, Option, List, [], ◌∷◌, if◌then◌else◌,
}
use konzhitai.Prelude.Int.{ℤ, pos, leb_ℤ, ◌+ℤ◌}
use konzhitai.Alert.{Event}
use konzhitai.Clock.{Time, after}

-- `RuleState`, the row of a rule for one source.
pub record RuleState (Value : Type 0) : Type 0 where
  pub active : Bool
  pub desired_active : Bool
  pub consecutive_bad : ℤ
  pub consecutive_good : ℤ
  pub last_value : Option Value
  pub last_evaluated_at : Time

pub record RuleKey : Type 0 where
  pub code : String
  pub source_type : String
  pub source_id : String

pub record Evaluation (Value : Type 0) : Type 0 where
  pub key : RuleKey
  pub bad : Bool
  pub good : Bool
  pub value : Option Value
  pub evaluated_at : Time
  pub required_consecutive : ℤ
  pub sample_based : Bool
  pub event : Event

module _ {Value : Type 0} where
  -- A sample that was counted before, or that is older than what was counted.
  abbrev pub is_stale : Evaluation Value → RuleState Value → Bool
  is_stale e s = e.sample_based && not (after e.evaluated_at s.last_evaluated_at)

  abbrev pub evaluated : Evaluation Value → RuleState Value → RuleState Value
  evaluated e s = record s { last_evaluated_at = e.evaluated_at; last_value = e.value }

  unfoldable pub count_bad : ℤ → RuleState Value → RuleState Value
  count_bad required s =
      let count = s.consecutive_bad +ℤ pos 1 in
      record s {
        consecutive_bad = count;
        consecutive_good = pos 0;
        desired_active = if leb_ℤ required count then true else s.desired_active;
      }

  unfoldable pub count_good : ℤ → RuleState Value → RuleState Value
  count_good required s =
      let count = s.consecutive_good +ℤ pos 1 in
      record s {
        consecutive_good = count;
        consecutive_bad = pos 0;
        desired_active = if leb_ℤ required count then false else s.desired_active;
      }

  unfoldable pub count_neither : RuleState Value → RuleState Value
  count_neither s = record s { consecutive_bad = pos 0; consecutive_good = pos 0 }

  -- One round of the loop of `Apply` on the state of the evaluation's key.
  unfoldable pub advance : Evaluation Value → RuleState Value → RuleState Value
  unfolding count_bad count_good count_neither
  advance e s =
      if is_stale e s
      then s
      else if e.bad
      then count_bad e.required_consecutive (evaluated e s)
      else if e.good
      then count_good e.required_consecutive (evaluated e s)
      else count_neither (evaluated e s)

  -- The rounds of the evaluations of one key, in their order.
  unfoldable pub advance_all : List (Evaluation Value) → RuleState Value → RuleState Value
  unfolding advance
  advance_all [] s = s
  advance_all (e ∷ es) s = advance_all es (advance e s)
