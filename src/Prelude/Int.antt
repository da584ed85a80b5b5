-- ===== src/Prelude/Int.antt =====
-- Go's signed integers: `ℤ` over the native numbers, with the wrap-around of 64 bits.
use Prim.Native.Nat.{ℕ, suc, ◌+◌, ◌-◌, ◌*◌, ◌/◌, ◌%◌, ◌≤◌, ◌<◌}
use mathlib.Core.Path.{◌≡◌, refl}
use mathlib.Core.Bool.{Bool}
use native.Mathlib.Omega.{arith}
use native.Mathlib.Nat.{mul-zero}
use konzhitai.Prelude.Tests.{ltb, leb, if◌then◌else◌}

-- `negsuc n` is -(n + 1).
pub data ℤ : Type 0 where
  pos : ℕ → ℤ
  negsuc : ℕ → ℤ

abbrev pub pos_part : ℤ → ℕ
pos_part (pos n) = n
pos_part (negsuc n) = 0

abbrev pub neg_part : ℤ → ℕ
neg_part (pos n) = 0
neg_part (negsuc n) = suc n

-- a - b, as an integer.
abbrev pub sub_ℕ : ℕ → ℕ → ℤ
sub_ℕ a b = if leb b a then pos (a - b) else negsuc (b - a - 1)

infix 50 ◌≤ℤ◌ ◌<ℤ◌
abbrev pub ◌≤ℤ◌ : ℤ → ℤ → Type 0
a ≤ℤ b = pos_part a + neg_part b ≤ pos_part b + neg_part a

abbrev pub ◌<ℤ◌ : ℤ → ℤ → Type 0
a <ℤ b = pos_part a + neg_part b < pos_part b + neg_part a

abbrev pub ltb_ℤ : ℤ → ℤ → Bool
ltb_ℤ a b = ltb (pos_part a + neg_part b) (pos_part b + neg_part a)

abbrev pub leb_ℤ : ℤ → ℤ → Bool
leb_ℤ a b = leb (pos_part a + neg_part b) (pos_part b + neg_part a)

-- The residue below 2^64 of an integer, and the int64 that a residue stands for.
abbrev pub word64 : ℤ → ℕ
word64 (pos n) = n % 18446744073709551616
word64 (negsuc n) = 18446744073709551615 - n % 18446744073709551616

abbrev pub signed64 : ℕ → ℤ
signed64 r = if ltb r 9223372036854775808 then pos r else negsuc (18446744073709551615 - r)

abbrev pub wrap64 : ℤ → ℤ
wrap64 a = signed64 (word64 a)

-- int64 addition, subtraction and multiplication; `/` truncates towards zero and its divisor is
-- positive where the program divides.
infixl 65 ◌+ℤ◌ ◌-ℤ◌
infixl 70 ◌*ℤ◌ ◌/ℤ◌
unfoldable pub ◌+ℤ◌ : ℤ → ℤ → ℤ
a +ℤ b = wrap64 (sub_ℕ (pos_part a + pos_part b) (neg_part a + neg_part b))

unfoldable pub ◌-ℤ◌ : ℤ → ℤ → ℤ
a -ℤ b = wrap64 (sub_ℕ (pos_part a + neg_part b) (neg_part a + pos_part b))

unfoldable pub ◌*ℤ◌ : ℤ → ℤ → ℤ
a *ℤ b = wrap64 (
    sub_ℕ (pos_part a * pos_part b + neg_part a * neg_part b)
      (pos_part a * neg_part b + neg_part a * pos_part b))

unfoldable pub ◌/ℤ◌ : ℤ → ℤ → ℤ
a /ℤ b =
    sub_ℕ (pos_part a / pos_part b + neg_part a / neg_part b)
      (pos_part a / neg_part b + neg_part a / pos_part b)

-- Below 2^63 the operations are those of the numbers.
wrap64_small : (n : ℕ) → n < 9223372036854775808 → wrap64 (pos n) ≡ pos n
wrap64_small n h = ground arith

pub +ℤ_pos : (a b : ℕ) → a + b < 9223372036854775808 → pos a +ℤ pos b ≡ pos (a + b)
unfolding ◌+ℤ◌
+ℤ_pos a b h = ground arith

pub *ℤ_pos : (a b : ℕ) → a * b < 9223372036854775808 → pos a *ℤ pos b ≡ pos (a * b)
unfolding ◌*ℤ◌
*ℤ_pos a b h = ground (arith, mul-zero a, mul-zero b)

pub /ℤ_pos : (a b : ℕ) → pos a /ℤ pos b ≡ pos (a / b)
unfolding ◌/ℤ◌
/ℤ_pos a b = ground arith

-- Exact sums and differences, for counters that are kept within 64 bits by other means.
unfoldable pub plus : ℤ → ℤ → ℤ
plus a b = sub_ℕ (pos_part a + pos_part b) (neg_part a + neg_part b)

unfoldable pub minus : ℤ → ℤ → ℤ
minus a b = sub_ℕ (pos_part a + neg_part b) (neg_part a + pos_part b)

-- With these `omega` works with the operations shut.
pub plus_parts :
    (a b : ℤ)
    → pos_part (plus a b) + neg_part a + neg_part b ≡ neg_part (plus a b) + pos_part a + pos_part b
unfolding plus
plus_parts a b = ground arith

pub minus_parts :
    (a b : ℤ)
    → pos_part (minus a b) + neg_part a + pos_part b
      ≡ neg_part (minus a b) + pos_part a + neg_part b
unfolding minus
minus_parts a b = ground arith

pub eq_of_parts : (a b : ℤ) → pos_part a + neg_part b ≡ pos_part b + neg_part a → a ≡ b
eq_of_parts a b h = ground arith

pub ruleset int_laws = (arith, plus_parts, minus_parts, eq_of_parts)

wrapped : pos 922337203685477 *ℤ pos 10001 ≡ negsuc 9222449699651096138
unfolding ◌*ℤ◌
wrapped = refl

truncated : (negsuc 6) /ℤ pos 2 ≡ negsuc 2
unfolding ◌/ℤ◌
truncated = refl
