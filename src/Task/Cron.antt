-- ===== src/Task/Cron.antt =====
-- The cron expressions of internal/task/schedule.go, over code points, and the search for the next run. The
-- calendar of a time zone comes from Go's time package: what it says of an instant is a parameter.
pub mod Next
pub mod Select
mod Tests
use konzhitai.Prelude.{
  ℕ, zero, suc, ◌+◌, ◌-◌, ◌*◌, ◌/◌, ◌%◌, Bool, true, false, not, ◌&&◌, ◌||◌, String, Option, none,
  some, List, [], ◌∷◌, ◌++◌, any, all, codes, is_space, if◌then◌else◌, ltb, leb, ◌==◌, ◌!=◌, nat_eq,
}
use konzhitai.Prelude.Int.{ℤ, pos, negsuc, sub_ℕ, ltb_ℤ, leb_ℤ, ◌+ℤ◌}
use konzhitai.Clock.{Time, before}
use konzhitai.Task.Usage.{int_eq}

-- `strings.Split` by one character.
abbrev cons_head : ℕ → List (List ℕ) → List (List ℕ)
cons_head c [] = (c ∷ []) ∷ []
cons_head c (s ∷ ss) = (c ∷ s) ∷ ss

abbrev split : ℕ → List ℕ → List (List ℕ)
split sep [] = [] ∷ []
split sep (c ∷ cs) = let rest = split sep cs in if c == sep then [] ∷ rest else cons_head c rest

abbrev has : ℕ → List ℕ → Bool
has sep s = any (λ c. c == sep) s

-- `strings.Fields`: the maximal runs without white space.
abbrev put : List ℕ → List (List ℕ) → List (List ℕ)
put [] ws = ws
put (c ∷ w) ws = (c ∷ w) ∷ ws

abbrev before_word : ℕ → List ℕ × List (List ℕ) → List ℕ × List (List ℕ)
unfolding is_space
before_word c (w, ws) = if is_space c then ([], put w ws) else (c ∷ w, ws)

abbrev words : List ℕ → List ℕ × List (List ℕ)
unfolding before_word
words [] = ([], [])
words (c ∷ cs) = before_word c (words cs)

abbrev first_word : List ℕ × List (List ℕ) → List (List ℕ)
first_word (w, ws) = put w ws

unfoldable pub fields : List ℕ → List (List ℕ)
unfolding words
fields s = first_word (words s)

-- `strconv.Atoi`: a sign or none, then digits; a number that does not fit into 64 bits is refused.
abbrev digits_value : ℕ → List ℕ → Option ℕ
digits_value n [] = some n
digits_value n (c ∷ cs) =
    let rest = digits_value (n * 10 + (c - 48)) cs in if leb 48 c && leb c 57 then rest else none

abbrev number : List ℕ → Option ℕ
number [] = none
number (c ∷ cs) = digits_value 0 (c ∷ cs)

abbrev positive : Option ℕ → Option ℤ
positive none = none
positive (some n) = if ltb n 9223372036854775808 then some (pos n) else none

abbrev negative : Option ℕ → Option ℤ
negative none = none
negative (some n) = if leb n 9223372036854775808 then some (sub_ℕ 0 n) else none

unfoldable pub atoi : List ℕ → Option ℤ
atoi [] = none
atoi (c ∷ cs) =
    if c == b'+'
    then positive (number cs)
    else if c == b'-'
    then negative (number cs)
    else positive (number (c ∷ cs))

-- The numbers that one part selects, from `item` on; 64 rounds are more than any part takes.
abbrev pub normal : Bool → ℤ → ℤ
normal normalize item = if normalize && item == pos 7 then pos 0 else item

unfoldable pub select_items : ℕ → Bool → ℤ → ℤ → ℤ → List ℤ
select_items zero normalize item end step = []
select_items (suc n) normalize item end step =
    let rest = select_items n normalize (item +ℤ step) end step in
    if leb_ℤ item end then normal normalize item ∷ rest else []

abbrev both {ℓ κ μ} :
    {A : Type ℓ} {B : Type κ} {C : Type μ} → (A → B → C) → Option A → Option B → Option C
both f (some a) (some b) = some (f a b)
both f _ _ = none

-- A part without its step, and the step.
abbrev positive_step : List ℕ → Option ℤ → Option (List ℕ × ℤ)
positive_step base none = none
positive_step base (some step) = if leb_ℤ step (pos 0) then none else some (base, step)

abbrev two_pieces : List (List ℕ) → Option (List ℕ × ℤ)
unfolding atoi
two_pieces (base ∷ step ∷ []) = positive_step base (atoi step)
two_pieces _ = none

unfoldable pub base_and_step : List ℕ → Option (List ℕ × ℤ)
unfolding two_pieces
base_and_step part = if has b'/' part then two_pieces (split b'/' part) else some (part, pos 1)

abbrev two_bounds : List (List ℕ) → Option (ℤ × ℤ)
unfolding atoi
two_bounds (low ∷ high ∷ []) = both (λ a b. (a, b)) (atoi low) (atoi high)
two_bounds _ = none

abbrev single : ℤ → Option ℤ → Option (ℤ × ℤ)
single step none = none
single step (some n) = if step != pos 1 then none else some (n, n)

abbrev is_star : List ℕ → Bool
is_star (c ∷ []) = c == b'*'
is_star _ = false

unfoldable pub bounds : ℕ → ℕ → List ℕ → ℤ → Option (ℤ × ℤ)
unfolding two_bounds atoi
bounds minimum maximum base step =
    if is_star base
    then some (pos minimum, pos maximum)
    else if has b'-' base
    then two_bounds (split b'-' base)
    else single step (atoi base)

unfoldable pub in_range : ℕ → ℕ → Bool → ℤ → Option (ℤ × ℤ) → Option (List ℤ)
unfolding select_items
in_range minimum maximum normalize step none = none
in_range minimum maximum normalize step (some (start, end)) =
    if ltb_ℤ start (pos minimum) || ltb_ℤ (pos maximum) end || ltb_ℤ end start
    then none
    else some (select_items 64 normalize start end step)

unfoldable pub parse_part : ℕ → ℕ → Bool → List ℕ → Option (List ℤ)
unfolding base_and_step bounds in_range
parse_part minimum maximum normalize part = elim (base_and_step part) [
  | none ↦ none
  | some (base, step) ↦ in_range minimum maximum normalize step (bounds minimum maximum base step)
]

unfoldable pub parse_parts : ℕ → ℕ → Bool → List (List ℕ) → Option (List ℤ)
unfolding parse_part
parse_parts minimum maximum normalize [] = some []
parse_parts minimum maximum normalize (part ∷ parts) =
    both (λ xs ys. xs ++ ys) (parse_part minimum maximum normalize part)
      (parse_parts minimum maximum normalize parts)

abbrev not_empty : Bool → Option (List ℤ) → Option (List ℤ × Bool)
not_empty wildcard (some (x ∷ xs)) = some (x ∷ xs, wildcard)
not_empty wildcard _ = none

-- `parseCronField`: the numbers that are selected, and whether the field is `*`.
unfoldable pub parse_cron_field : List ℕ → ℕ → ℕ → Bool → Option (List ℤ × Bool)
unfolding parse_parts
parse_cron_field value minimum maximum normalize =
    not_empty (is_star value) (parse_parts minimum maximum normalize (split b',' value))

-- `cronSpec`
pub record CronSpec : Type 0 where
  pub minute : List ℤ
  pub hour : List ℤ
  pub day : List ℤ
  pub month : List ℤ
  pub weekday : List ℤ
  pub day_wildcard : Bool
  pub weekday_wildcard : Bool

infixl 5 ◌>>=◌
abbrev ◌>>=◌ : {A B : Type 0} → Option A → (A → Option B) → Option B
none >>= f = none
some a >>= f = f a

abbrev five_fields : List (List ℕ) → Option CronSpec
unfolding parse_cron_field
five_fields (minute ∷ hour ∷ day ∷ month ∷ weekday ∷ []) = do
  minutes ← parse_cron_field minute 0 59 false
  hours ← parse_cron_field hour 0 23 false
  days ← parse_cron_field day 1 31 false
  months ← parse_cron_field month 1 12 false
  weekdays ← parse_cron_field weekday 0 7 true
  some (record {
    minute = minutes.0;
    hour = hours.0;
    day = days.0;
    month = months.0;
    weekday = weekdays.0;
    day_wildcard = days.1;
    weekday_wildcard = weekdays.1;
  })
five_fields _ = none

-- `parseCron`
unfoldable pub parse_cron : String → Option CronSpec
unfolding fields five_fields
parse_cron expression = five_fields (fields (codes expression))

-- What the calendar says of an instant.
pub record Civil : Type 0 where
  pub minute : ℕ
  pub hour : ℕ
  pub day : ℕ
  pub month : ℕ
  pub weekday : ℕ

abbrev pub selects : List ℤ → ℕ → Bool
selects xs n = any (λ x. x == pos n) xs

abbrev pub calendar_matches : CronSpec → Civil → Bool
calendar_matches spec c =
    if spec.day_wildcard && spec.weekday_wildcard
    then true
    else if spec.day_wildcard
    then selects spec.weekday c.weekday
    else if spec.weekday_wildcard
    then selects spec.day c.day
    else selects spec.day c.day || selects spec.weekday c.weekday

unfoldable pub cron_matches : CronSpec → Civil → Bool
cron_matches spec c =
    selects spec.minute c.minute
    && selects spec.hour c.hour
    && selects spec.month c.month
    && calendar_matches spec c

abbrev pub minute_ns : ℕ
minute_ns = 60_000_000_000

-- `civil` is the calendar of the location; `add_years` the candidate after five years in it.
module _ (civil : Time → Civil) (add_years : Time → Time) where
  -- The loop, for `n` rounds.
  unfoldable pub search_from : ℕ → CronSpec → Time → Time → Option Time
  unfolding cron_matches
  search_from zero spec limit candidate = none
  search_from (suc n) spec limit candidate =
      let rest = search_from n spec limit (candidate + minute_ns) in
      if not (before candidate limit)
      then none
      else if cron_matches spec (civil candidate)
      then some candidate
      else rest

  abbrev pub first_candidate : Time → Time
  first_candidate after = after - after % minute_ns + minute_ns

  -- One round for each minute before the limit, rounded up.
  abbrev pub rounds : Time → ℕ
  rounds candidate = suc ((add_years candidate - candidate) / minute_ns)

  -- `nextCronTime`, in a location that loads.
  unfoldable pub next_cron_time : String → Time → Option Time
  unfolding parse_cron search_from
  next_cron_time expression after = elim (parse_cron expression) [
    | none ↦ none
    | some spec ↦
        let candidate = first_candidate after in
        search_from (rounds candidate) spec (add_years candidate) candidate
  ]
