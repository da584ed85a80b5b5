-- ===== src/Clock.antt =====
-- Go's time package as the program uses it. A `time.Time` is a count of nanoseconds since the zero
-- time, so `IsZero` is a test for 0; a `time.Duration` is an int64, with its wrap-around.
use konzhitai.Prelude.{ℕ, ◌+◌, ◌-◌, Bool, leb, ltb, if◌then◌else◌, ◌==◌, nat_eq}
use konzhitai.Prelude.Int.{ℤ, pos, negsuc, pos_part, neg_part, sub_ℕ, ◌*ℤ◌}

abbrev pub Time : Type 0
Time = ℕ

abbrev pub second : ℤ
second = pos 1_000_000_000

abbrev pub minute : ℤ
minute = pos 60_000_000_000

abbrev pub hour : ℤ
hour = pos 3_600_000_000_000

-- `time.Duration(n) * time.Second`
abbrev pub seconds : ℤ → ℤ
seconds n = n *ℤ second

-- `t.Add(d)`; the program adds no duration that leads behind the zero time.
abbrev pub add : Time → ℤ → Time
add t d = t + pos_part d - neg_part d

-- `t.Sub(u)` stops at the largest and the smallest Duration.
abbrev saturate : ℤ → ℤ
saturate (pos n) = if leb n 9223372036854775807 then pos n else pos 9223372036854775807
saturate (negsuc n) = if leb n 9223372036854775807 then negsuc n else negsuc 9223372036854775807

abbrev pub sub : Time → Time → ℤ
sub t u = saturate (sub_ℕ t u)

abbrev pub before : Time → Time → Bool
before t u = ltb t u

abbrev pub after : Time → Time → Bool
after t u = ltb u t

abbrev pub is_zero : Time → Bool
is_zero t = t == 0
