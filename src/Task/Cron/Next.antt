-- ===== src/Task/Cron/Next.antt =====
-- The next run is the first minute that the expression selects.
use mathlib.Core.Path.{subst}
use native.Mathlib.Nat.{lt-div-mul-add, mod-lt}
use konzhitai.Prelude.{
  ◌⊎◌, inl, inr, List, [], ◌∷◌, Bool-cases, ◌==◌, ℕ, zero, suc, ◌+◌, ◌-◌, ◌*◌, ◌/◌, ◌%◌, ◌≤◌, ◌<◌,
  ◌≡◌, refl, sym, Bool, true, false, not, Option, none, some, String, arith, if◌then◌else◌,
}
use konzhitai.Clock.{Time, before}
use konzhitai.Prelude.Int.{ℤ, pos}
use konzhitai.Task.Usage.{int_eq, int_same}
use konzhitai.Task.Cron.{
  CronSpec, Civil, selects, calendar_matches, cron_matches, parse_cron, search_from, next_cron_time,
  first_candidate, rounds, minute_ns,
}

-- A number is in the list of a field.
abbrev pub Has : List ℤ → ℕ → Type 0
Has [] n = ⊥
Has (x ∷ xs) n = (x ≡ pos n) ⊎ Has xs n

-- The day of the month and the day of the week: a field that is `*` does not restrict, and of two that do one is enough.
pub data DayFits (spec : CronSpec) (c : Civil) : Type 0 where
  any_day : spec.day_wildcard ≡ true → spec.weekday_wildcard ≡ true → DayFits spec c
  by_weekday :
      spec.day_wildcard ≡ true
      → spec.weekday_wildcard ≡ false
      → Has spec.weekday c.weekday
      → DayFits spec c
  by_day :
      spec.day_wildcard ≡ false → spec.weekday_wildcard ≡ true → Has spec.day c.day → DayFits spec c
  by_either :
      spec.day_wildcard ≡ false
      → spec.weekday_wildcard ≡ false
      → Has spec.day c.day ⊎ Has spec.weekday c.weekday
      → DayFits spec c

-- What the fields of an expression say of an instant.
pub record Fits (spec : CronSpec) (c : Civil) : Type 0 where
  pub minute_fits : Has spec.minute c.minute
  pub hour_fits : Has spec.hour c.hour
  pub month_fits : Has spec.month c.month
  pub day_fits : DayFits spec c

selects-Has : (xs : List ℤ) (n : ℕ) → selects xs n ≡ true → Has xs n
selects-Has [] n h = absurd (ground (arith, h))
selects-Has (x ∷ xs) n h = elim (Bool-cases (x == pos n)) [
  | inl e ↦ inl (int_same x (pos n) e)
  | inr e ↦ inr (selects-Has xs n (ground (arith, h, e)))
]

Has-selects : (xs : List ℤ) (n : ℕ) → Has xs n → selects xs n ≡ true
Has-selects [] n h = absurd h
Has-selects (x ∷ xs) n (inl e) = ground (arith, e)
Has-selects (x ∷ xs) n (inr h) = ground (arith, Has-selects xs n h)

calendar-DayFits : (spec : CronSpec) (c : Civil) → calendar_matches spec c ≡ true → DayFits spec c
calendar-DayFits spec c h = step spec.day_wildcard spec.weekday_wildcard refl refl
  where
    step : (a b : Bool) → spec.day_wildcard ≡ a → spec.weekday_wildcard ≡ b → DayFits spec c
    step true true p q = DayFits.any_day p q
    step true false p q =
        DayFits.by_weekday p q (selects-Has spec.weekday c.weekday (ground (arith, h, p, q)))
    step false true p q = DayFits.by_day p q (selects-Has spec.day c.day (ground (arith, h, p, q)))
    step false false p q = DayFits.by_either p q (elim (Bool-cases (selects spec.day c.day)) [
      | inl e ↦ inl (selects-Has spec.day c.day e)
      | inr e ↦ inr (selects-Has spec.weekday c.weekday (ground (arith, h, p, q, e)))
    ])

DayFits-calendar : (spec : CronSpec) (c : Civil) → DayFits spec c → calendar_matches spec c ≡ true
DayFits-calendar spec c (DayFits.any_day p q) = ground (arith, p, q)
DayFits-calendar spec c (DayFits.by_weekday p q h) =
    ground (arith, p, q, Has-selects spec.weekday c.weekday h)
DayFits-calendar spec c (DayFits.by_day p q h) = ground (arith, p, q, Has-selects spec.day c.day h)
DayFits-calendar spec c (DayFits.by_either p q (inl h)) =
    ground (arith, p, q, Has-selects spec.day c.day h)
DayFits-calendar spec c (DayFits.by_either p q (inr h)) =
    ground (arith, p, q, Has-selects spec.weekday c.weekday h)

matches-Fits : (spec : CronSpec) (c : Civil) → cron_matches spec c ≡ true → Fits spec c
unfolding cron_matches
matches-Fits spec c h = record {
  minute_fits = selects-Has spec.minute c.minute (ground (arith, h));
  hour_fits = selects-Has spec.hour c.hour (ground (arith, h));
  month_fits = selects-Has spec.month c.month (ground (arith, h));
  day_fits = calendar-DayFits spec c (ground (arith, h));
}

Fits-matches : (spec : CronSpec) (c : Civil) → Fits spec c → cron_matches spec c ≡ true
unfolding cron_matches
Fits-matches spec c f = ground (
  arith,
  Has-selects spec.minute c.minute f.minute_fits,
  Has-selects spec.hour c.hour f.hour_fits,
  Has-selects spec.month c.month f.month_fits,
  DayFits-calendar spec c f.day_fits,
)

unmatched : (spec : CronSpec) (c : Civil) → cron_matches spec c ≡ false → Fits spec c → ⊥
unmatched spec c h f = clash (Fits-matches spec c f)
  where
    clash : cron_matches spec c ≡ true → ⊥
    clash g = ground (arith, g, h)

module _ (civil : Time → Civil) (add_years : Time → Time) where
  -- No minute of a search before the one given is selected.
  abbrev pub NoneBefore : CronSpec → Time → ℕ → Type 0
  NoneBefore spec candidate k =
      (j : ℕ) → j < k → cron_matches spec (civil (candidate + j * minute_ns)) ≡ false

  -- What a search finds.
  abbrev pub Finds : CronSpec → Time → Time → Option Time → Type 0
  Finds spec limit candidate (some t) =
      (k : ℕ) × (t ≡ candidate + k * minute_ns)
      × (t < limit)
      × (cron_matches spec (civil t) ≡ true)
      × NoneBefore spec candidate k
  Finds spec limit candidate none =
      (j : ℕ)
      → candidate + j * minute_ns < limit
      → cron_matches spec (civil (candidate + j * minute_ns)) ≡ false

  later :
      (spec : CronSpec) (candidate : Time) (k : ℕ)
      → cron_matches spec (civil candidate) ≡ false
      → NoneBefore spec (candidate + minute_ns) k
      → NoneBefore spec candidate (suc k)
  later spec candidate k first rest zero l =
      subst (λ t. cron_matches spec (civil t) ≡ false) (omega arith) first
  later spec candidate k first rest (suc j) l =
      subst (λ t. cron_matches spec (civil t) ≡ false) (omega arith) (rest j (omega arith))

  search_from-Finds :
      (n : ℕ) (spec : CronSpec) (limit candidate : Time)
      → limit < candidate + n * minute_ns
      → Finds spec limit candidate (search_from civil add_years n spec limit candidate)
  unfolding search_from
  search_from-Finds zero spec limit candidate enough = λ j l. absurd (omega arith)
  search_from-Finds (suc n) spec limit candidate enough =
      step (search_from-Finds n spec limit (candidate + minute_ns) (omega arith))
        (search_from civil add_years n spec limit (candidate + minute_ns)) refl
        (before candidate limit) refl (cron_matches spec (civil candidate)) refl
    where
      none_later :
          Finds spec limit (candidate + minute_ns) none
          → (j : ℕ) → candidate + j * minute_ns < limit
          → cron_matches spec (civil candidate) ≡ false
          → cron_matches spec (civil (candidate + j * minute_ns)) ≡ false
      none_later ih zero l f = subst (λ t. cron_matches spec (civil t) ≡ false) (omega arith) f
      none_later ih (suc j) l f =
          subst (λ t. cron_matches spec (civil t) ≡ false) (omega arith) (ih j (omega arith))

      step :
          Finds spec limit
            (candidate + minute_ns)
            (search_from civil add_years n spec limit (candidate + minute_ns))
          → (rest : Option Time)
          → search_from civil add_years n spec limit (candidate + minute_ns) ≡ rest
          → (b : Bool) → before candidate limit ≡ b
          → (m : Bool) → cron_matches spec (civil candidate) ≡ m
          → Finds spec limit candidate (if not b then none else if m then some candidate else rest)
      step ih rest r false e m f = λ j l. absurd (ground arith)
      step ih rest r true e true f = (0, omega arith, ground arith, f, λ j l. absurd (omega arith))
      step ih none r true e false f =
          λ j l. none_later (subst (Finds spec limit (candidate + minute_ns)) r ih) j l f
      step ih (some t) r true e false f =
          let (k, is, inside, hit, before_it) =
            subst (Finds spec limit (candidate + minute_ns)) r ih in
          (suc k, omega (arith, is), inside, hit, later spec candidate k f before_it)

  enough_rounds :
      (candidate : Time)
      → add_years candidate < candidate + rounds civil add_years candidate * minute_ns
  enough_rounds candidate =
      let ns = add_years candidate - candidate in
      let bound : ns < ns / minute_ns * minute_ns + minute_ns = lt-div-mul-add (omega arith) in
      omega (arith, bound)

  parsed :
      (expression : String) (after : Time) (spec : CronSpec)
      → parse_cron expression ≡ some spec
      → let candidate = first_candidate civil add_years after in
        next_cron_time civil add_years expression after
        ≡ search_from civil add_years
            (rounds civil add_years candidate)
            spec
            (add_years candidate)
            candidate
  unfolding next_cron_time
  parsed expression after spec h = ground arith

  first_candidate-range :
      (after : Time)
      → (after < first_candidate civil add_years after)
        × (first_candidate civil add_years after ≤ after + minute_ns)
  first_candidate-range after =
      let bound : after % minute_ns < minute_ns = mod-lt after (omega arith) in
      (omega (arith, bound), omega (arith, bound))

  -- The first minute before the limit that the expression fits, counted in minutes from the candidate.
  abbrev pub FirstFit : CronSpec → Time → Time → Option Time → Type 0
  FirstFit spec limit candidate (some t) =
      (k : ℕ) × (t ≡ candidate + k * minute_ns)
      × (t < limit)
      × Fits spec (civil t)
      × ((j : ℕ) → j < k → Fits spec (civil (candidate + j * minute_ns)) → ⊥)
  FirstFit spec limit candidate none =
      (j : ℕ)
      → candidate + j * minute_ns < limit
      → Fits spec (civil (candidate + j * minute_ns))
      → ⊥

  Finds-FirstFit :
      (spec : CronSpec) (limit candidate : Time) (o : Option Time)
      → Finds spec limit candidate o
      → FirstFit spec limit candidate o
  Finds-FirstFit spec limit candidate none h =
      λ j l. unmatched spec (civil (candidate + j * minute_ns)) (h j l)
  Finds-FirstFit spec limit candidate (some t) (k, is, inside, hit, sooner) = (
    k,
    is,
    inside,
    matches-Fits spec (civil t) hit,
    λ j l. unmatched spec (civil (candidate + j * minute_ns)) (sooner j l),
  )

  whole_minute :
      (after : Time) → first_candidate civil add_years after ≡ suc (after / minute_ns) * minute_ns
  whole_minute after = omega arith

  -- For an expression that parses, the next run is the first whole minute after the given time that its fields fit,
  -- and lies before the limit that the calendar gives for the first of these minutes; where there is no next run, no
  -- whole minute before that limit fits.
  pub next_cron_time-first :
      (expression : String) (after : Time) (spec : CronSpec)
      → parse_cron expression ≡ some spec
      → (first : Time) × ((m : ℕ) × (first ≡ m * minute_ns))
        × (after < first)
        × (first ≤ after + minute_ns)
        × FirstFit spec (add_years first) first (next_cron_time civil add_years expression after)
  next_cron_time-first expression after spec h =
      let candidate = first_candidate civil add_years after in
      (
        candidate,
        (suc (after / minute_ns), whole_minute after),
        (first_candidate-range after).0,
        (first_candidate-range after).1,
        Finds-FirstFit spec (add_years candidate) candidate
            (next_cron_time civil add_years expression after)
            (subst (Finds spec (add_years candidate) candidate)
              (sym (parsed expression after spec h))
              (search_from-Finds (rounds civil add_years candidate) spec (add_years candidate)
                candidate (enough_rounds candidate))),
      )
