-- ===== src/Ops/Hysteresis.antt =====
-- When the counting wants an alert, and that it counts no sample twice.
use konzhitai.Prelude.{
  ℕ, suc, ◌+◌, ◌≤◌, ◌<◌, ◌≡◌, refl, ◌∙◌, true, false, not, ◌&&◌, ◌||◌, List, [], ◌∷◌, ap, length,
  arith, leb,
}
use konzhitai.Prelude.Int.{pos, ◌+ℤ◌, +ℤ_pos}
use konzhitai.Clock.{Time, after}
use konzhitai.Ops.{RuleState, Evaluation, advance, advance_all}

abbrev large : ℕ
large = 4_611_686_018_427_387_904

module _ {Value : Type 0} where
  -- The evaluations are of samples, none of them after `t`.
  abbrev pub SamplesUntil : Time → List (Evaluation Value) → Type 0
  SamplesUntil t [] = Unit
  SamplesUntil t (e ∷ es) = (e.sample_based ≡ true) × (e.evaluated_at ≤ t) × SamplesUntil t es

  abbrev pub Samples : List (Evaluation Value) → Type 0
  Samples [] = Unit
  Samples (e ∷ es) = (e.sample_based ≡ true) × Samples es

  -- The evaluations are bad, ask for `n` in a row, and those of samples come in the order of their times, after `t`.
  abbrev pub AllBad : ℕ → Time → List (Evaluation Value) → Type 0
  AllBad n t [] = Unit
  AllBad n t (e ∷ es) =
      ((e.sample_based && not (after e.evaluated_at t)) ≡ false)
      × (e.bad ≡ true)
      × (e.required_consecutive ≡ pos n)
      × AllBad n e.evaluated_at es

  advance-monotone :
      (e : Evaluation Value) (s : RuleState Value)
      → e.sample_based ≡ true
      → (s.last_evaluated_at ≤ (advance e s).last_evaluated_at)
        × (e.evaluated_at ≤ (advance e s).last_evaluated_at)
  unfolding advance
  advance-monotone e s h = ground (arith, h)

  advance_all-monotone :
      (es : List (Evaluation Value)) (s : RuleState Value)
      → Samples es
      → (s.last_evaluated_at ≤ (advance_all es s).last_evaluated_at)
        × SamplesUntil (advance_all es s).last_evaluated_at es
  unfolding advance_all
  advance_all-monotone [] s h = (omega arith, tt)
  advance_all-monotone (e ∷ es) s (h, hs) =
      let (ahead, counted) = advance-monotone e s h in
      let (further, all) = advance_all-monotone es (advance e s) hs in
      (omega (arith, ahead, further), (h, omega (arith, counted, further), all))

  stale :
      (e : Evaluation Value) (s : RuleState Value)
      → e.sample_based ≡ true
      → e.evaluated_at ≤ s.last_evaluated_at
      → advance e s ≡ s
  unfolding advance
  stale e s h l = ground (arith, h)

  stale_all :
      (es : List (Evaluation Value)) (s : RuleState Value)
      → SamplesUntil s.last_evaluated_at es
      → advance_all es s ≡ s
  unfolding advance_all
  stale_all [] s h = refl
  stale_all (e ∷ es) s (h, l, hs) = ap (advance_all es) (stale e s h l) ∙ stale_all es s hs

  -- One bad evaluation.
  bad_step :
      (n c : ℕ) (t : Time) (e : Evaluation Value) (s : RuleState Value)
      → s.last_evaluated_at ≡ t
      → (e.sample_based && not (after e.evaluated_at t)) ≡ false
      → e.bad ≡ true
      → e.required_consecutive ≡ pos n
      → suc c < large
      → s.consecutive_bad ≡ pos c
      → ((advance e s).consecutive_bad ≡ pos (suc c))
        × ((advance e s).desired_active ≡ (leb n (suc c) || s.desired_active))
        × ((advance e s).last_evaluated_at ≡ e.evaluated_at)
  unfolding advance
  bad_step n c t e s at fresh bad required l is =
      let sum : s.consecutive_bad +ℤ pos 1 ≡ pos (suc c) =
        ap (λ x. x +ℤ pos 1) is ∙ +ℤ_pos c 1 (omega arith) ∙ ap pos (omega arith) in
      ground (arith, sum, at, fresh, bad, required)

  bad_from :
      (n c : ℕ) (t : Time) (es : List (Evaluation Value)) (s : RuleState Value)
      → s.last_evaluated_at ≡ t
      → AllBad n t es
      → c + length es < large
      → s.consecutive_bad ≡ pos c
      → (leb n c ≡ true → s.desired_active ≡ true)
      → (advance_all es s).desired_active ≡ (leb n (c + length es) || s.desired_active)
  unfolding advance_all
  bad_from n c t [] s at h l is known = ground (arith, known)
  bad_from n c t (e ∷ es) s at (fresh, bad, required, hs) l is known =
      let (count, desired, now) = bad_step n c t e s at fresh bad required (omega arith) is in
      bad_from n (suc c) e.evaluated_at es (advance e s) now hs (omega arith) count
        (λ reached. desired ∙ ground (arith, reached))
      ∙ ground (arith, desired)

  -- Evaluations of samples that were counted change nothing when they are evaluated again after all of them.
  pub advance_all-replay :
      (es : List (Evaluation Value)) (s : RuleState Value)
      → Samples es
      → advance_all es (advance_all es s) ≡ advance_all es s
  advance_all-replay es s h = stale_all es (advance_all es s) (advance_all-monotone es s h).1

  -- From a state whose count of bad evaluations is 0, a sequence of bad evaluations, each asking for `n` in a row, the
  -- samples among them in the order of their times and after the last evaluation, leaves an alert wanted exactly if
  -- there are at least `n` of them or it was wanted before; `n` is positive and there are fewer than 2^62 of them.
  pub advance_all-bad :
      (n : ℕ) (es : List (Evaluation Value)) (s : RuleState Value)
      → 0 < n
      → AllBad n s.last_evaluated_at es
      → length es < large
      → s.consecutive_bad ≡ pos 0
      → (advance_all es s).desired_active ≡ (leb n (length es) || s.desired_active)
  advance_all-bad n es s p h l is =
      bad_from n 0 s.last_evaluated_at es s refl h (omega arith) is
        (λ reached. absurd (ground (arith, reached)))
      ∙ ap (λ m. leb n m || s.desired_active) (omega arith)
