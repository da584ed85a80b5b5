-- ===== src/Ops/Scan.antt =====
-- `RuleEngine.Scan` of internal/ops/rules.go: the transitions that `Apply` reports are brought to the alerts, and those
-- that arrived are marked. The alerts, and whether the database carries a marking out, are parameters.
pub mod Delivery
pub mod Latest
pub mod Settled
use konzhitai.Prelude.{
  Bool, true, false, not, Option, none, some, List, [], ◌∷◌, ◌++◌, if◌then◌else◌, ◌==◌, Result, ok,
  err, find, keep, any,
}
use konzhitai.Alert.{Event}
use konzhitai.Clock.{Time}
use konzhitai.Ops.{RuleState, RuleKey, Evaluation}
use konzhitai.Ops.Apply.{key_eq, put, Rows, Transition, apply, mark_applied}
use konzhitai.Ops.Rules.{Floats, RuleSnapshot, evaluate_snapshot}

module _ {Value : Type 0} where
  abbrev pub key_of : Transition Value → RuleKey
  key_of t = t.evaluation.key

  -- `deduplicateTransitions`: the keys in the order of their first transitions, each with its last one.
  abbrev collect_order : List RuleKey → List (Transition Value) → List RuleKey
  collect_order order [] = order
  collect_order order (t ∷ ts) =
      let next = if any (λ k. k == key_of t) order then order else order ++ key_of t ∷ [] in
      collect_order next ts

  abbrev pub last_of : RuleKey → List (Transition Value) → Option (Transition Value)
  last_of k [] = none
  last_of k (t ∷ ts) = elim (last_of k ts) [
    | some u ↦ some u
    | none ↦ if key_of t == k then some t else none
  ]

  abbrev take_last : List (Transition Value) → List RuleKey → List (Transition Value)
  take_last ts [] = []
  take_last ts (k ∷ ks) = elim (last_of k ts) [
    | some t ↦ t ∷ take_last ts ks
    | none ↦ take_last ts ks
  ]

  unfoldable pub deduplicate_transitions : List (Transition Value) → List (Transition Value)
  deduplicate_transitions ts = take_last ts (collect_order [] ts)

-- `AlertSink`, over the state of the alerts; the answer tells whether the call succeeded.
pub record AlertSink : Type 1 where
  pub State : Type 0
  pub raise : Event → State → Bool × State
  pub resolve : RuleKey → State → Bool × State

module _ {Value : Type 0} (sink : AlertSink) (available : RuleKey → Bool) where
  open sink use {State, raise, resolve}

  -- `applyTransition`
  unfoldable pub apply_transition : Transition Value → State → Bool × State
  apply_transition t s =
      if t.desired_active then raise t.evaluation.event s else resolve (key_of t) s

  -- One transition: the alert, then the mark; the answer tells whether both succeeded.
  abbrev mark_after : Transition Value → Rows Value → Bool × State → Bool × (State × Rows Value)
  unfolding mark_applied
  mark_after t rows (false, s) = (false, (s, rows))
  mark_after t rows (true, s) =
      let (marked, rows') = mark_applied (available (key_of t)) (key_of t) t.desired_active rows in
      (marked, (s, rows'))

  unfoldable pub deliver : Transition Value → State × Rows Value → Bool × (State × Rows Value)
  unfolding apply_transition mark_after
  deliver t (s, rows) = mark_after t rows (apply_transition t s)

  -- The loop goes on after a failure; the answer tells whether there was none.
  unfoldable pub deliver_all :
      List (Transition Value) → State × Rows Value → Bool × (State × Rows Value)
  unfolding deliver
  deliver_all [] w = (true, w)
  deliver_all (t ∷ ts) w =
      let first = deliver t w in
      let rest = deliver_all ts first.1 in (if first.0 then rest.0 else false, rest.1)

-- `Scan`: `snapshot` is what the repository reads, or none where that fails; `carried_out` tells whether the transaction
-- of `Apply` succeeds.
module _ (floats : Floats) (sink : AlertSink) (available : RuleKey → Bool) where
  open floats use {Value}
  open sink use {State}

  abbrev finish_scan :
      State → Option (List (Transition Value)) × Rows Value → Bool × (State × Rows Value)
  unfolding deliver_all deduplicate_transitions
  finish_scan s (none, rows) = (false, (s, rows))
  finish_scan s (some ts, rows) = deliver_all sink available (deduplicate_transitions ts) (s, rows)

  unfoldable pub scan :
      Option RuleSnapshot → Bool → Time → State × Rows Value → Bool × (State × Rows Value)
  unfolding finish_scan evaluate_snapshot apply
  scan none carried_out now w = (false, w)
  scan (some snapshot) carried_out now (s, rows) =
      finish_scan s (apply carried_out (evaluate_snapshot floats snapshot now) rows)
