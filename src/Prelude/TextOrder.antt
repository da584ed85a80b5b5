-- ===== src/Prelude/TextOrder.antt =====
-- Go's `<` on strings is a strict total order.
use Prim.Native.Nat.{Ordering, compare as compare_ℕ}
use Prim.Native.Char.{Char, code}
use Prim.Native.String.{String, compare, then}
use Prim.Native.String.compare as compare_text
use text.Mathlib.Text.{is_lt}
use text.Mathlib.TextEquality.{codes_equal}
use text.Mathlib.TextPositions.{compare_refl}
use mathlib.Core.Path.{◌≡◌, refl}
use mathlib.Core.Bool.{Bool, true, false}
use native.Mathlib.Omega.{arith}

abbrev pub str_less : String → String → Bool
str_less a b = is_lt (compare a b)

nil_cons : (d : Char) (t : String) → compare String.[] (String.◌∷◌ d t) ≡ Ordering.lt
nil_cons d t = λ i. compare_text.nil-cons d t i

cons_nil : (c : Char) (s : String) → compare (String.◌∷◌ c s) String.[] ≡ Ordering.gt
cons_nil c s = λ i. compare_text.cons-nil c s i

cons_cons :
    (c d : Char) (s t : String)
    → compare (String.◌∷◌ c s) (String.◌∷◌ d t) ≡ then (compare_ℕ (code c) (code d)) (compare s t)
cons_cons c d s t = λ i. compare_text.cons-cons c d s t i

pub str_less_asym : (s t : String) → str_less s t ≡ true → str_less t s ≡ false
str_less_asym String.[] String.[] h = ground arith
str_less_asym String.[] (String.◌∷◌ d t) h = ground (arith, cons_nil d t)
str_less_asym (String.◌∷◌ c s) String.[] h = ground (arith, cons_nil c s)
str_less_asym (String.◌∷◌ c s) (String.◌∷◌ d t) h =
    ground (arith, cons_cons c d s t, cons_cons d c t s, str_less_asym s t)

pub str_less_trans :
    (s t u : String) → str_less t s ≡ false → str_less u t ≡ false → str_less u s ≡ false
str_less_trans String.[] t String.[] h k = ground (arith, compare_refl String.[])
str_less_trans String.[] t (String.◌∷◌ e u) h k = ground (arith, cons_nil e u)
str_less_trans (String.◌∷◌ c s) String.[] u h k = ground (arith, nil_cons c s)
str_less_trans (String.◌∷◌ c s) (String.◌∷◌ d t) String.[] h k = ground (arith, nil_cons d t)
str_less_trans (String.◌∷◌ c s) (String.◌∷◌ d t) (String.◌∷◌ e u) h k =
    ground (arith, cons_cons d c t s, cons_cons e d u t, cons_cons e c u s, str_less_trans s t u)

-- Two texts of which neither is less are one.
pub str_less_connex : (s t : String) → str_less s t ≡ false → str_less t s ≡ false → s ≡ t
str_less_connex String.[] String.[] h k = refl
str_less_connex String.[] (String.◌∷◌ d t) h k = ground (arith, nil_cons d t)
str_less_connex (String.◌∷◌ c s) String.[] h k = ground (arith, nil_cons c s)
str_less_connex (String.◌∷◌ c s) (String.◌∷◌ d t) h k =
    ground (arith, cons_cons c d s t, cons_cons d c t s, codes_equal c d, str_less_connex s t)
