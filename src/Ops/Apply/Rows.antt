-- ===== src/Ops/Apply/Rows.antt =====
-- The loop of `Apply` with its caches, against the counting of each key on its own.
use mathlib.Core.Path.{subst}
use konzhitai.Prelude.{
  ◌≡◌, refl, sym, ◌∙◌, ap, Bool, true, false, ◌⊎◌, inl, inr, Option, none, some, List, [], ◌∷◌,
  keep, if◌then◌else◌, decide, ◌==◌, arith,
}
use konzhitai.Ops.{RuleState, RuleKey, Evaluation, is_stale, advance, advance_all}
use konzhitai.Ops.Apply.{
  RuleKey_discrete, key_eq, put, Rows, Loop, new_row, row_or_new, state_of, with_row, cached_or_row,
  load_rows, evaluate, evaluate_all, start, apply,
}

pub put_self : {A : Type 0} (k : RuleKey) (v : A) (m : RuleKey → Option A) → put k v m k ≡ some v
put_self k v m = ground arith

pub put_other :
    {A : Type 0} (k j : RuleKey) (v : A) (m : RuleKey → Option A) → (k ≡ j → ⊥) → put k v m j ≡ m j
put_other k j v m h = ground arith

module _ {Value : Type 0} where
  -- The evaluations of one key.
  abbrev pub of_key : RuleKey → List (Evaluation Value) → List (Evaluation Value)
  of_key k es = keep (λ e. e.key == k) es

  -- The row of a key after evaluations of it.
  abbrev pub row_after :
      List (Evaluation Value) → Option (RuleState Value) → Option (RuleState Value)
  row_after [] row = row
  row_after (e ∷ es) row = some (advance_all (e ∷ es) (row_or_new row))

  -- What is cached is what the table holds.
  abbrev pub Cached : Loop Value → RuleKey → Type 0
  Cached l k =
      (l.states k ≡ none) ⊎ ((s : RuleState Value) × (l.states k ≡ some s) × (l.rows k ≡ some s))

  abbrev pub Agrees : Loop Value → Type 0
  Agrees l = (k : RuleKey) → Cached l k

  pub state_of_lem :
      (k : RuleKey) (l : Loop Value) → Agrees l → state_of k l ≡ row_or_new (l.rows k)
  state_of_lem k l h = step (h k)
    where
      step :
          (l.states k ≡ none)
            ⊎ ((s : RuleState Value) × (l.states k ≡ some s) × (l.rows k ≡ some s))
          → state_of k l ≡ row_or_new (l.rows k)
      step (inl e) = ground arith
      step (inr (s, e, f)) = ground arith

  -- The row of the key that is evaluated, and that of any other.
  loaded_row : (k : RuleKey) (l : Loop Value) → Agrees l → load_rows k l k ≡ some (state_of k l)
  loaded_row k l h = step (l.states k) (l.rows k) (h k) refl
    where
      step :
          (x y : Option (RuleState Value))
          → (x ≡ none) ⊎ ((s : RuleState Value) × (x ≡ some s) × (y ≡ some s))
          → l.rows k ≡ y
          → with_row k x y l.rows k ≡ some (cached_or_row x y)
      step none none c e = put_self k new_row l.rows
      step none (some s) c e = e
      step (some s) y (inl f) e = absurd (ground (arith, f))
      step (some s) none (inr (t, f, g)) e = absurd (ground (arith, g))
      step (some s) (some u) (inr (t, f, g)) e = ground (arith, e)

  loaded_other : (k j : RuleKey) (l : Loop Value) → (k ≡ j → ⊥) → load_rows k l j ≡ l.rows j
  loaded_other k j l h = step (l.states k) (l.rows k)
    where
      step : (x y : Option (RuleState Value)) → with_row k x y l.rows j ≡ l.rows j
      step none none = put_other k j new_row l.rows h
      step none (some s) = refl
      step (some s) none = refl
      step (some s) (some t) = refl

  stale_state : (e : Evaluation Value) (s : RuleState Value) → is_stale e s ≡ true → advance e s ≡ s
  unfolding advance
  stale_state e s h = ground (arith, h)

  pub evaluated_row :
      (e : Evaluation Value) (l : Loop Value)
      → Agrees l
      → (evaluate e l).rows e.key ≡ some (advance e (state_of e.key l))
  unfolding evaluate
  evaluated_row e l h = step (is_stale e (state_of e.key l)) refl
    where
      step :
          (b : Bool)
          → is_stale e (state_of e.key l) ≡ b
          → (if b
                then load_rows e.key l
                else put e.key (advance e (state_of e.key l)) (load_rows e.key l))
              e.key
            ≡ some (advance e (state_of e.key l))
      step true old = loaded_row e.key l h ∙ ap some (sym (stale_state e (state_of e.key l) old))
      step false new = put_self e.key (advance e (state_of e.key l)) (load_rows e.key l)

  pub evaluated_other :
      (e : Evaluation Value) (j : RuleKey) (l : Loop Value)
      → (e.key ≡ j → ⊥)
      → (evaluate e l).rows j ≡ l.rows j
  unfolding evaluate
  evaluated_other e j l h = step (is_stale e (state_of e.key l))
    where
      step :
          (b : Bool)
          → (if b
                then load_rows e.key l
                else put e.key (advance e (state_of e.key l)) (load_rows e.key l))
              j
            ≡ l.rows j
      step true = loaded_other e.key j l h
      step false =
          put_other e.key j (advance e (state_of e.key l)) (load_rows e.key l) h
          ∙ loaded_other e.key j l h

  pub evaluate-Agrees : (e : Evaluation Value) (l : Loop Value) → Agrees l → Agrees (evaluate e l)
  unfolding evaluate
  evaluate-Agrees e l h k = elim (RuleKey_discrete e.key k) [
    | yes same ↦
        subst (Cached (evaluate e l)) same
          (inr (next, put_self e.key next l.states, evaluated_row e l h))
    | no other ↦ kept (put_other e.key k next l.states other) (evaluated_other e k l other) (h k)
  ]
    where
      next : RuleState Value
      next = advance e (state_of e.key l)

      kept :
          (evaluate e l).states k ≡ l.states k
          → (evaluate e l).rows k ≡ l.rows k
          → Cached l k
          → Cached (evaluate e l) k
      kept p q (inl c) = inl (p ∙ c)
      kept p q (inr (s, c, d)) = inr (s, p ∙ c, q ∙ d)

  pub row_after-some :
      (es : List (Evaluation Value)) (s : RuleState Value)
      → row_after es (some s) ≡ some (advance_all es s)
  unfolding advance_all
  row_after-some [] s = refl
  row_after-some (e ∷ es) s = refl

  -- The row of a key is counted on by the evaluations of that key alone.
  pub evaluate_all-row :
      (es : List (Evaluation Value)) (l : Loop Value) (k : RuleKey)
      → Agrees l
      → (evaluate_all es l).rows k ≡ row_after (of_key k es) (l.rows k)
  unfolding evaluate_all advance_all
  evaluate_all-row [] l k h = refl
  evaluate_all-row (e ∷ es) l k h =
      evaluate_all-row es (evaluate e l) k (evaluate-Agrees e l h) ∙ step (RuleKey_discrete e.key k)
    where
      rest : List (Evaluation Value)
      rest = of_key k es

      own : e.key ≡ k → (evaluate e l).rows k ≡ some (advance e (row_or_new (l.rows k)))
      own same =
          subst (λ j. (evaluate e l).rows j ≡ some (advance e (row_or_new (l.rows j)))) same
            (evaluated_row e l h ∙ ap (λ s. some (advance e s)) (state_of_lem e.key l h))

      step :
          (d : Dec (e.key ≡ k))
          → row_after rest ((evaluate e l).rows k)
            ≡ row_after (if decide d then e ∷ rest else rest) (l.rows k)
      step (yes same) =
          ap (row_after rest) (own same) ∙ row_after-some rest (advance e (row_or_new (l.rows k)))
      step (no other) = ap (row_after rest) (evaluated_other e k l other)

-- Applying evaluations is counting the evaluations of each key on its own, in their order, from the row of the key or
-- a new one; the row of a key without evaluations stays as it is.
pub apply-rows :
    {Value : Type 0} (es : List (Evaluation Value)) (rows : Rows Value) (k : RuleKey)
    → (apply true es rows).1 k ≡ row_after (of_key k es) (rows k)
unfolding apply
apply-rows es rows k = evaluate_all-row es (start rows) k (λ j. inl refl)
