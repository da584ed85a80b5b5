-- ===== src/Task/Cron/Tests.antt =====
-- Cron expressions of internal/task/schedule.go in a calendar that stays in one minute.
use konzhitai.Prelude.{
  ℕ, ◌+◌, ◌*◌, ◌≤◌, ◌<◌, ◌≡◌, ◌↔◌, refl, arith, true, false, Option, none, some, [], ◌∷◌,
}
use konzhitai.Prelude.Int.{pos, ◌+ℤ◌}
use konzhitai.Clock.{Time}
use konzhitai.Task.Usage.{int_eq}
use konzhitai.Task.Cron.{CronSpec, Civil, parse_cron, next_cron_time, minute_ns, selects, in_range}
use konzhitai.Task.Cron.Next.{FirstFit, next_cron_time-first}
use konzhitai.Task.Cron.Select.{Picks, in_range-selects}

abbrev half_past : Time → Civil
half_past t = record { minute = 30; hour = 4; day = 12; month = 6; weekday = 3 }

abbrev soon : Time → Time
soon t = t + 3 * minute_ns

abbrev on_wednesday : CronSpec
on_wednesday = record {
  minute = pos 0 ∷ pos 30 ∷ [];
  hour = pos 3 ∷ pos 4 ∷ [];
  day = pos 1 ∷ [];
  month = pos 6 ∷ [];
  weekday = pos 0 ∷ pos 3 ∷ [];
  day_wildcard = false;
  weekday_wildcard = false;
}

parsed : parse_cron "*/30 3-4 1 6 7,3" ≡ some on_wednesday
unfolding parse_cron ◌+ℤ◌
parsed = refl

refused : parse_cron "5/2 * * * *" ≡ none
unfolding parse_cron ◌+ℤ◌
refused = refl

out_of_range : parse_cron "60 * * * *" ≡ none
unfolding parse_cron ◌+ℤ◌
out_of_range = refl

too_few : parse_cron "* * * *" ≡ none
unfolding parse_cron ◌+ℤ◌
too_few = refl

next_at_once :
    next_cron_time half_past soon "*/30 3-4 1 6 7,3" 90_000_000_000 ≡ some 120_000_000_000
unfolding next_cron_time konzhitai.Prelude.Int.◌+ℤ◌
next_at_once = refl

next_cron_time-first_example :
    (first : Time) × ((m : ℕ) × (first ≡ m * minute_ns))
    × (90_000_000_000 < first)
    × (first ≤ 90_000_000_000 + minute_ns)
    × FirstFit half_past soon on_wednesday
        (soon first)
        first
        (next_cron_time half_past soon "*/30 3-4 1 6 7,3" 90_000_000_000)
next_cron_time-first_example =
    next_cron_time-first half_past soon "*/30 3-4 1 6 7,3" 90_000_000_000 on_wednesday parsed

-- From Friday to the end of the week: 5, 6 and 7, which is Sunday.
in_range-selects_example :
    ((0 ≤ 5) × (5 ≤ 7) × (7 ≤ 7))
    × ((selects (pos 5 ∷ pos 6 ∷ pos 0 ∷ []) 0 ≡ true) ↔ Picks true 5 7 1 0)
unfolding in_range konzhitai.Prelude.Int.◌+ℤ◌
in_range-selects_example =
    in_range-selects 0 7 5 7 1 0 true (pos 5 ∷ pos 6 ∷ pos 0 ∷ []) (omega arith) (omega arith)
      (omega arith) refl
