-- ===== src/Ops/Scan/Delivery.antt =====
-- What the loop of `Scan` leaves in the row of one rule when each of its calls succeeds.
use konzhitai.Prelude.{
  ◌≡◌, refl, ◌∙◌, ap, Bool, true, false, Option, some, List, [], ◌∷◌, All, keep, if◌then◌else◌,
  ◌==◌, arith,
}
use konzhitai.Ops.{RuleState, RuleKey}
use konzhitai.Ops.Apply.{key_eq, bool_eq, marked, Rows, Transition, mark_applied}
use konzhitai.Ops.Scan.{key_of, AlertSink, apply_transition, mark_after, deliver, deliver_all}

module _ {Value : Type 0} where
  abbrev pub of_rule : RuleKey → List (Transition Value) → List (Transition Value)
  of_rule k ts = keep (λ t. key_of t == k) ts

  -- The markings of transitions, in their order.
  abbrev pub marks : List (Transition Value) → Option (RuleState Value) → Option (RuleState Value)
  marks [] row = row
  marks (t ∷ ts) row = marks ts (marked t.desired_active row)

  abbrev pub settled : RuleState Value → RuleState Value
  settled s = record s { active = s.desired_active }

  abbrev pub settled_if_any : List (Transition Value) → RuleState Value → RuleState Value
  settled_if_any [] s = s
  settled_if_any (t ∷ ts) s = settled s

  marked-wanted :
      (d : Bool) (s : RuleState Value) → d ≡ s.desired_active → marked d (some s) ≡ some (settled s)
  marked-wanted d s h = ground (arith, h)

  pub marks-settled :
      (ts : List (Transition Value)) (s : RuleState Value)
      → All (λ t. t.desired_active ≡ s.desired_active) ts
      → marks ts (some s) ≡ some (settled_if_any ts s)
  marks-settled [] s h = refl
  marks-settled (t ∷ ts) s (h, hs) =
      ap (marks ts) (marked-wanted t.desired_active s h)
      ∙ marks-settled ts (settled s) hs
      ∙ again ts
    where
      again :
          (us : List (Transition Value)) → some (settled_if_any us (settled s)) ≡ some (settled s)
      again [] = refl
      again (u ∷ us) = refl

module _ {Value : Type 0} (sink : AlertSink) (available : RuleKey → Bool) where
  open sink use {State}

  mark_after-row :
      (t : Transition Value) (rows : Rows Value) (r : Bool × State) (k : RuleKey)
      → (mark_after sink available t rows r).0 ≡ true
      → (mark_after sink available t rows r).1.1 k
        ≡ (if key_of t == k then marked t.desired_active (rows k) else rows k)
  unfolding mark_after mark_applied
  mark_after-row t rows (false, s) k h = absurd (ground (arith, h))
  mark_after-row t rows (true, s) k h = ground (arith, h)

  pub deliver_all-row :
      (ts : List (Transition Value)) (w : State × Rows Value) (k : RuleKey)
      → (deliver_all sink available ts w).0 ≡ true
      → (deliver_all sink available ts w).1.1 k ≡ marks (of_rule k ts) (w.1 k)
  unfolding deliver_all deliver
  deliver_all-row [] w k h = refl
  deliver_all-row (t ∷ ts) (s, rows) k h =
      step (deliver sink available t (s, rows))
        (mark_after-row t rows (apply_transition sink available t s) k)
        (λ w. deliver_all-row ts w k) h
    where
      joined :
          (b : Bool)
          → marks (of_rule k ts) (if b then marked t.desired_active (rows k) else rows k)
            ≡ marks (if b then t ∷ of_rule k ts else of_rule k ts) (rows k)
      joined true = refl
      joined false = refl

      step :
          (first : Bool × (State × Rows Value))
          → (first.0 ≡ true
              → first.1.1 k ≡ (if key_of t == k then marked t.desired_active (rows k) else rows k))
          → ((w : State × Rows Value)
              → (deliver_all sink available ts w).0 ≡ true
              → (deliver_all sink available ts w).1.1 k ≡ marks (of_rule k ts) (w.1 k))
          → (if first.0 then (deliver_all sink available ts first.1).0 else false) ≡ true
          → (deliver_all sink available ts first.1).1.1 k ≡ marks (of_rule k (t ∷ ts)) (rows k)
      step (false, w) g later e = absurd (ground (arith, e))
      step (true, w) g later e =
          later w e ∙ ap (marks (of_rule k ts)) (g refl) ∙ joined (key_of t == k)
