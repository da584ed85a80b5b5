-- ===== src/Ops/Apply/Changes.antt =====
-- What the loop of `Apply` caches of a rule, and the transitions that come of it.
use konzhitai.Prelude.{
  ◌≡◌, refl, sym, ◌∙◌, ap, Bool, true, false, ◌||◌, ◌⊎◌, inl, inr, Option, none, some, List, [],
  ◌∷◌, ◌++◌, All, All-append, any, decide, if◌then◌else◌, ◌==◌, ◌!=◌, arith,
}
use mathlib.Core.Path.{subst}
use konzhitai.Ops.{RuleState, RuleKey, Evaluation, advance, advance_all}
use konzhitai.Ops.Apply.{
  RuleKey_discrete, key_eq, bool_eq, Loop, Transition, row_or_new, state_of, next_order, evaluate,
  evaluate_all, transition, transitions,
}
use konzhitai.Ops.Apply.Rows.{
  put_self, put_other, of_key, row_after, Agrees, state_of_lem, evaluated_row, evaluated_other,
  evaluate-Agrees,
}

listed-append :
    (k j : RuleKey) (ks : List RuleKey)
    → any (λ i. i == k) ks ≡ true
    → any (λ i. i == k) (ks ++ j ∷ []) ≡ true
listed-append k j [] h = absurd (ground (arith, h))
listed-append k j (i ∷ ks) h = ground (arith, listed-append k j ks)

listed_last : (k : RuleKey) (ks : List RuleKey) → any (λ i. i == k) (ks ++ k ∷ []) ≡ true
listed_last k [] = ground arith
listed_last k (i ∷ ks) = ground (arith, listed_last k ks)

module _ {Value : Type 0} where
  -- What is cached of a key after evaluations of it.
  abbrev pub cached_after :
      List (Evaluation Value)
      → Option (RuleState Value)
      → Option (RuleState Value)
      → Option (RuleState Value)
  cached_after [] cached row = cached
  cached_after (e ∷ es) cached row = row_after (e ∷ es) row

  cached_after-some :
      (es : List (Evaluation Value)) (s : RuleState Value)
      → cached_after es (some s) (some s) ≡ some (advance_all es s)
  unfolding advance_all
  cached_after-some [] s = refl
  cached_after-some (e ∷ es) s = refl

  evaluated_state :
      (e : Evaluation Value) (l : Loop Value)
      → (evaluate e l).states e.key ≡ some (advance e (state_of e.key l))
  unfolding evaluate
  evaluated_state e l = put_self e.key (advance e (state_of e.key l)) l.states

  other_state :
      (e : Evaluation Value) (j : RuleKey) (l : Loop Value)
      → (e.key ≡ j → ⊥)
      → (evaluate e l).states j ≡ l.states j
  unfolding evaluate
  other_state e j l h = put_other e.key j (advance e (state_of e.key l)) l.states h

  pub evaluate_all-state :
      (es : List (Evaluation Value)) (l : Loop Value) (k : RuleKey)
      → Agrees l
      → (evaluate_all es l).states k ≡ cached_after (of_key k es) (l.states k) (l.rows k)
  unfolding evaluate_all advance_all
  evaluate_all-state [] l k h = refl
  evaluate_all-state (e ∷ es) l k h =
      evaluate_all-state es (evaluate e l) k (evaluate-Agrees e l h)
      ∙ step (RuleKey_discrete e.key k)
    where
      rest : List (Evaluation Value)
      rest = of_key k es

      s : RuleState Value
      s = advance e (row_or_new (l.rows k))

      both : e.key ≡ k → ((evaluate e l).states k ≡ some s) × ((evaluate e l).rows k ≡ some s)
      both same =
          subst
            (λ j.
              ((evaluate e l).states j ≡ some (advance e (row_or_new (l.rows j))))
              × ((evaluate e l).rows j ≡ some (advance e (row_or_new (l.rows j)))))
            same
            (
              evaluated_state e l ∙ ap (λ s. some (advance e s)) (state_of_lem e.key l h),
              evaluated_row e l h ∙ ap (λ s. some (advance e s)) (state_of_lem e.key l h),
            )

      step :
          (d : Dec (e.key ≡ k))
          → cached_after rest ((evaluate e l).states k) ((evaluate e l).rows k)
            ≡ cached_after (if decide d then e ∷ rest else rest) (l.states k) (l.rows k)
      step (yes same) =
          ap (λ c. cached_after rest c ((evaluate e l).rows k)) (both same).0
          ∙ ap (cached_after rest (some s)) (both same).1
          ∙ cached_after-some rest s
      step (no other) =
          ap (λ c. cached_after rest c ((evaluate e l).rows k)) (other_state e k l other)
          ∙ ap (cached_after rest (l.states k)) (evaluated_other e k l other)

  -- A key with a cached state has its evaluation, and a place in the order.
  abbrev pub Known : Loop Value → RuleKey → Type 0
  Known l k =
      ((l.states k ≡ none) × (l.latest k ≡ none))
      ⊎ ((e : Evaluation Value) × (l.latest k ≡ some e)
          × (e.key ≡ k)
          × (any (λ j. j == k) l.order ≡ true))

  order_self :
      (e : Evaluation Value) (l : Loop Value)
      → Known l e.key
      → any (λ j. j == e.key) (next_order e l) ≡ true
  order_self e l (inl (_, new)) = ground (arith, new, listed_last e.key l.order)
  order_self e l (inr (f, old, _, h)) = ground (arith, old, h)

  order_kept :
      (e : Evaluation Value) (l : Loop Value) (k : RuleKey)
      → any (λ j. j == k) l.order ≡ true
      → any (λ j. j == k) (next_order e l) ≡ true
  order_kept e l k h = step (l.latest e.key)
    where
      step :
          (o : Option (Evaluation Value))
          → any (λ j. j == k) (elim o [ some _ ↦ l.order | none ↦ l.order ++ e.key ∷ [] ]) ≡ true
      step (some _) = h
      step none = listed-append k e.key l.order h

  evaluate-Known :
      (e : Evaluation Value) (l : Loop Value)
      → ((k : RuleKey) → Known l k)
      → (k : RuleKey) → Known (evaluate e l) k
  unfolding evaluate
  evaluate-Known e l h k = elim (RuleKey_discrete e.key k) [
    | yes same ↦
        subst (Known (evaluate e l)) same
          (inr (e, put_self e.key e l.latest, refl, order_self e l (h e.key)))
    | no other ↦ kept (put_other e.key k e l.latest other) (other_state e k l other) (h k)
  ]
    where
      kept :
          (evaluate e l).latest k ≡ l.latest k
          → (evaluate e l).states k ≡ l.states k
          → Known l k
          → Known (evaluate e l) k
      kept p q (inl (a, b)) = inl (q ∙ a, p ∙ b)
      kept p q (inr (f, b, c, d)) = inr (f, p ∙ b, c, order_kept e l k d)

  pub evaluate_all-Known :
      (es : List (Evaluation Value)) (l : Loop Value)
      → ((k : RuleKey) → Known l k)
      → (k : RuleKey) → Known (evaluate_all es l) k
  unfolding evaluate_all
  evaluate_all-Known [] l h = h
  evaluate_all-Known (e ∷ es) l h = evaluate_all-Known es (evaluate e l) (evaluate-Known e l h)

  -- The transition brings the state of its rule to what is wanted.
  abbrev pub Brings : Loop Value → Transition Value → Type 0
  Brings l t =
      (s : RuleState Value) × (l.states t.evaluation.key ≡ some s)
      × (t.desired_active ≡ s.desired_active)

  transition-Brings :
      (l : Loop Value) (k : RuleKey) (x : Option (RuleState Value)) (y : Option (Evaluation Value))
      → l.states k ≡ x
      → l.latest k ≡ y
      → Known l k
      → All (Brings l) (transition x y)
  transition-Brings l k none none p q h = tt
  transition-Brings l k none (some e) p q h = tt
  transition-Brings l k (some s) none p q h = tt
  transition-Brings l k (some s) (some e) p q (inl (a, b)) = absurd (ground (arith, p, a))
  transition-Brings l k (some s) (some e) p q (inr (f, b, c, d)) =
      step (s.desired_active != s.active)
        (subst (λ j. l.states j ≡ some s) (sym (same_key (sym q ∙ b) ∙ c)) p)
    where
      same_key : some e ≡ some f → e.key ≡ f.key
      same_key g = ground (arith, g)

      step :
          (b : Bool)
          → l.states e.key ≡ some s
          → All
              (Brings l)
              (if b then record { evaluation = e; desired_active = s.desired_active } ∷ [] else [])
      step true g = ((s, g, refl), tt)
      step false g = tt

  pub transitions-Brings :
      (l : Loop Value) (ks : List RuleKey)
      → ((k : RuleKey) → Known l k)
      → All (Brings l) (transitions l ks)
  unfolding transitions
  transitions-Brings l [] h = tt
  transitions-Brings l (k ∷ ks) h =
      All-append (Brings l) (transition (l.states k) (l.latest k)) (transitions l ks)
        (transition-Brings l k (l.states k) (l.latest k) refl refl (h k))
        (transitions-Brings l ks h)

  any-append :
      (p : Transition Value → Bool) (ts us : List (Transition Value))
      → any p (ts ++ us) ≡ any p ts || any p us
  any-append p [] us = refl
  any-append p (t ∷ ts) us = ground (arith, any-append p ts us)

  pub transitions-changes :
      (l : Loop Value) (ks : List RuleKey) (k : RuleKey) (s : RuleState Value)
      → l.states k ≡ some s
      → (s.desired_active != s.active) ≡ true
      → Known l k
      → any (λ j. j == k) ks ≡ true
      → any (λ t. t.evaluation.key == k) (transitions l ks) ≡ true
  unfolding transitions
  transitions-changes l [] k s p d h i = absurd (ground (arith, i))
  transitions-changes l (j ∷ ks) k s p d (inl (a, b)) i = absurd (ground (arith, p, a))
  transitions-changes l (j ∷ ks) k s p d (inr (e, b, c, g)) i =
      any-append (λ t. t.evaluation.key == k) (transition (l.states j) (l.latest j))
        (transitions l ks)
      ∙ elim (RuleKey_discrete j k) [
        | yes same ↦ ground (
          arith,
          ap (λ i. any (λ t. t.evaluation.key == k) (transition (l.states i) (l.latest i))) same
              ∙ own,
        )
        | no other ↦
            later (any (λ t. t.evaluation.key == k) (transition (l.states j) (l.latest j)))
              (transitions-changes l ks k s p d (inr (e, b, c, g)) (ground (arith, i, other)))
      ]
    where
      own : any (λ t. t.evaluation.key == k) (transition (l.states k) (l.latest k)) ≡ true
      own = ground (arith, p, b, c, d)

      later : (x : Bool) {y : Bool} → y ≡ true → x || y ≡ true
      later true h = refl
      later false h = h
