-- ===== src/Ops/Scan/Settled.antt =====
-- A scan that reports no failure, for one rule: the counting of `Apply`, the alert and the mark.
use mathlib.Core.Path.{subst}
use konzhitai.Prelude.{
  ◌≡◌, refl, sym, ◌∙◌, ap, Bool, true, false, inl, inr, Option, none, some, List, [], ◌∷◌, All, any,
  decide, if◌then◌else◌, ◌==◌, ◌!=◌, arith,
}
use konzhitai.Clock.{Time}
use konzhitai.Ops.{RuleState, RuleKey, Evaluation, advance_all}
use konzhitai.Ops.Apply.{
  RuleKey_discrete, key_eq, bool_eq, Rows, Loop, Transition, row_or_new, evaluate_all, start,
  transitions, apply,
}
use konzhitai.Ops.Apply.Rows.{of_key, row_after, evaluate_all-row}
use konzhitai.Ops.Apply.Changes.{
  cached_after, evaluate_all-state, Known, evaluate_all-Known, Brings, transitions-Brings,
  transitions-changes,
}
use konzhitai.Ops.Rules.{Floats, RuleSnapshot, evaluate_snapshot}
use konzhitai.Ops.Scan.{AlertSink, deduplicate_transitions, finish_scan, scan}
use konzhitai.Ops.Scan.Delivery.{
  of_rule, marks, settled, settled_if_any, marks-settled, deliver_all-row,
}
use konzhitai.Ops.Scan.Latest.{
  changes, deduplicate_transitions-All, deduplicate_transitions-changes,
}

module _ {Value : Type 0} where
  -- The row of a rule after evaluations of it whose outcome has reached the alerts.
  abbrev pub settled_after :
      List (Evaluation Value) → Option (RuleState Value) → Option (RuleState Value)
  settled_after [] row = row
  settled_after (e ∷ es) row = some (settled (advance_all (e ∷ es) (row_or_new row)))

  of_rule-wanted :
      (l : Loop Value) (k : RuleKey) (s : RuleState Value) (ts : List (Transition Value))
      → l.states k ≡ some s
      → All (Brings l) ts
      → All (λ t. t.desired_active ≡ s.desired_active) (of_rule k ts)
  of_rule-wanted l k s [] p h = tt
  of_rule-wanted l k s (t ∷ ts) p ((u, q, d), hs) =
      step (RuleKey_discrete t.evaluation.key k) (of_rule-wanted l k s ts p hs)
    where
      step :
          (b : Dec (t.evaluation.key ≡ k))
          → All (λ t. t.desired_active ≡ s.desired_active) (of_rule k ts)
          → All
              (λ t. t.desired_active ≡ s.desired_active)
              (if decide b then t ∷ of_rule k ts else of_rule k ts)
      step (yes same) rest = (d ∙ same_state (sym q ∙ ap l.states same ∙ p), rest)
        where
          same_state : some u ≡ some s → u.desired_active ≡ s.desired_active
          same_state g = ground (arith, g)
      step (no other) rest = rest

  of_rule-none :
      (l : Loop Value) (k : RuleKey) (ts : List (Transition Value))
      → l.states k ≡ none
      → All (Brings l) ts
      → of_rule k ts ≡ []
  of_rule-none l k [] p h = refl
  of_rule-none l k (t ∷ ts) p ((u, q, d), hs) =
      step (RuleKey_discrete t.evaluation.key k) (of_rule-none l k ts p hs)
    where
      clash : (some u ≡ none) → ⊥
      clash g = ground (arith, g)

      step :
          (b : Dec (t.evaluation.key ≡ k))
          → of_rule k ts ≡ []
          → (if decide b then t ∷ of_rule k ts else of_rule k ts) ≡ []
      step (yes same) rest = absurd (clash (sym q ∙ ap l.states same ∙ p))
      step (no other) rest = rest

  of_rule-some :
      (k : RuleKey) (ts : List (Transition Value)) (s : RuleState Value)
      → ((s.desired_active != s.active) ≡ true → changes k ts ≡ true)
      → settled_if_any (of_rule k ts) s ≡ settled s
  of_rule-some k [] s h = ground (arith, h)
  of_rule-some k (t ∷ ts) s h = elim (RuleKey_discrete t.evaluation.key k) [
    | yes same ↦ ground (arith, same)
    | no other ↦ ground (arith, other) ∙ of_rule-some k ts s (λ d. ground (arith, h d, other))
  ]

  start-Known : (rows : Rows Value) (k : RuleKey) → Known (start rows) k
  start-Known rows k = inl (refl, refl)

  -- The order of the loop lists each rule that it knows.
  Known-changes :
      (l : Loop Value) (k : RuleKey) (s : RuleState Value)
      → l.states k ≡ some s
      → ((k : RuleKey) → Known l k)
      → (s.desired_active != s.active) ≡ true
      → changes k (transitions l l.order) ≡ true
  Known-changes l k s p h d = transitions-changes l l.order k s p d (h k) (listed (h k))
    where
      listed : Known l k → any (λ j. j == k) l.order ≡ true
      listed (inl (a, b)) = absurd (ground (arith, p, a))
      listed (inr (e, a, b, c)) = c

  -- The markings of one rule after the loop of `Apply`.
  marks-after :
      (es : List (Evaluation Value)) (rows : Rows Value) (k : RuleKey) (l : Loop Value)
      → l ≡ evaluate_all es (start rows)
      → marks (of_rule k (deduplicate_transitions (transitions l l.order))) (l.rows k)
        ≡ settled_after (of_key k es) (rows k)
  marks-after es rows k l e =
      step (of_key k es)
        (ap (λ m. m.states k) e ∙ evaluate_all-state es (start rows) k (λ j. inl refl))
        (ap (λ m. m.rows k) e ∙ evaluate_all-row es (start rows) k (λ j. inl refl))
    where
      ts : List (Transition Value)
      ts = deduplicate_transitions (transitions l l.order)

      known : (j : RuleKey) → Known l j
      known =
          subst (λ m. (j : RuleKey) → Known m j) (sym e)
            (evaluate_all-Known es (start rows) (start-Known rows))

      brings : All (Brings l) ts
      brings =
          deduplicate_transitions-All (Brings l) (transitions l l.order)
            (transitions-Brings l l.order known)

      step :
          (os : List (Evaluation Value))
          → l.states k ≡ cached_after os none (rows k)
          → l.rows k ≡ row_after os (rows k)
          → marks (of_rule k ts) (l.rows k) ≡ settled_after os (rows k)
      step [] p q = ap (λ us. marks us (l.rows k)) (of_rule-none l k ts p brings) ∙ q
      step (o ∷ os) p q =
          ap (marks (of_rule k ts)) q
          ∙ marks-settled (of_rule k ts) s (of_rule-wanted l k s ts p brings)
          ∙ ap some (
              of_rule-some k ts s (λ d.
                deduplicate_transitions-changes k (transitions l l.order)
                  (Known-changes l k s p known d)))
        where
          s : RuleState Value
          s = advance_all (o ∷ os) (row_or_new (rows k))

-- A scan that reports no failure leaves each rule counted on by what it evaluated of it, and with the active state
-- that is then wanted; a rule of which it evaluated nothing stays as it was.
pub scan-settled :
    (floats : Floats) (sink : AlertSink) (available : RuleKey → Bool) (snapshot : RuleSnapshot)
    (carried_out : Bool) (now : Time) (s : AlertSink.State sink) (rows : Rows (Floats.Value floats))
    (k : RuleKey)
    → (scan floats sink available (some snapshot) carried_out now (s, rows)).0 ≡ true
    → (scan floats sink available (some snapshot) carried_out now (s, rows)).1.1 k
      ≡ settled_after (of_key k (evaluate_snapshot floats snapshot now)) (rows k)
unfolding scan finish_scan apply
scan-settled floats sink available snapshot false now s rows k h = absurd (ground (arith, h))
scan-settled floats sink available snapshot true now s rows k h =
    deliver_all-row sink available (deduplicate_transitions (transitions l l.order)) (s, l.rows) k h
    ∙ marks-after es rows k l refl
  where
    es : List (Evaluation (Floats.Value floats))
    es = evaluate_snapshot floats snapshot now

    l : Loop (Floats.Value floats)
    l = evaluate_all es (start rows)
