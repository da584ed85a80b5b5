-- ===== src/Upgrade/Version/Laws.antt =====
-- The comparison of versions is that of the numbers they stand for.
use Prim.Native.Nat.{compare, Ordering}
use konzhitai.Prelude.{
  ◌↔◌, sym, ap, ◌∙◌, ℕ, suc, ◌+◌, ◌-◌, ◌*◌, ◌≤◌, ◌<◌, ◌≡◌, refl, String, Bool, true, not, ◌||◌,
  some, List, [], ◌∷◌, all, length, ltb, arith, codes, Option-cases, Bool-cases, inl, inr,
}
use konzhitai.Upgrade.Version.{
  Version, compare_text, compare_segment, compare_parts, or_else, valid_segment,
  stable_version_parts, compare_stable_versions, from_segments, split, drop_v,
}

-- What a text of digits stands for, after the digits read so far.
abbrev value_from : ℕ → List ℕ → ℕ
value_from n [] = n
value_from n (c ∷ cs) = value_from (n * 10 + (c - 48)) cs

abbrev pub value : List ℕ → ℕ
value = value_from 0

abbrev digits : List ℕ → Bool
digits s = all (λ c. not (ltb c 48 || ltb 57 c)) s

value_from-lt :
    (n m : ℕ) (a b : List ℕ)
    → digits a ≡ true
    → digits b ≡ true
    → length a ≡ length b
    → n < m
    → value_from n a < value_from m b
value_from-lt n m [] [] da db e l = l
value_from-lt n m (c ∷ a) (d ∷ b) da db e l =
    value_from-lt (n * 10 + (c - 48)) (m * 10 + (d - 48)) a b (ground arith) (ground arith)
      (ground arith) (ground arith)
value_from-lt n m [] (d ∷ b) da db e l = absurd (ground arith)
value_from-lt n m (c ∷ a) [] da db e l = absurd (ground arith)

compare_text-value :
    (n : ℕ) (a b : List ℕ)
    → digits a ≡ true
    → digits b ≡ true
    → length a ≡ length b
    → compare_text a b ≡ compare (value_from n a) (value_from n b)
compare_text-value n [] [] da db e = ground arith
compare_text-value n [] (d ∷ b) da db e = absurd (ground arith)
compare_text-value n (c ∷ a) [] da db e = absurd (ground arith)
compare_text-value n (c ∷ a) (d ∷ b) da db e = ground (
  arith,
  compare_text-value (n * 10 + (c - 48)) a b,
  value_from-lt (n * 10 + (c - 48)) (n * 10 + (d - 48)) a b,
  value_from-lt (n * 10 + (d - 48)) (n * 10 + (c - 48)) b a,
)

value_from-longer :
    (m : ℕ) (a b : List ℕ)
    → digits a ≡ true
    → digits b ≡ true
    → length a ≤ length b
    → 0 < m
    → value_from 0 a < value_from m b
value_from-longer m [] [] da db l p = p
value_from-longer m (c ∷ a) [] da db l p = absurd (ground arith)
value_from-longer m a (d ∷ b) da db l p = elim (Bool-cases (ltb (length a) (suc (length b)))) [
  | inl shorter ↦
      value_from-longer (m * 10 + (d - 48)) a b da (ground arith) (ground arith) (ground arith)
  | inr equal ↦ value_from-lt 0 m a (d ∷ b) da db (ground arith) p
]

-- A longer number without a leading zero is larger.
longer-value :
    (a b : List ℕ)
    → valid_segment a ≡ true
    → valid_segment b ≡ true
    → length a < length b
    → value a < value b
longer-value [] b va vb l = absurd (ground arith)
longer-value (c ∷ a) [] va vb l = absurd (ground arith)
longer-value (c ∷ a) (d ∷ []) va vb l = absurd (ground arith)
longer-value (c ∷ a) (d ∷ e ∷ b) va vb l =
    value_from-longer (0 * 10 + (d - 48)) (c ∷ a) (e ∷ b) (ground arith) (ground arith)
      (ground arith) (ground arith)

compare_segment-value :
    (a b : List ℕ)
    → valid_segment a ≡ true
    → valid_segment b ≡ true
    → compare_segment a b ≡ compare (value a) (value b)
compare_segment-value a b va vb =
    ground (arith, longer-value a b, longer-value b a, compare_text-value 0 a b)

record IsValid (v : Version) : Type 0 where
  major_valid : valid_segment v.major ≡ true
  minor_valid : valid_segment v.minor ≡ true
  patch_valid : valid_segment v.patch ≡ true

from_segments-IsValid : (ss : List (List ℕ)) (v : Version) → from_segments ss ≡ some v → IsValid v
from_segments-IsValid [] v h = cc
from_segments-IsValid (a ∷ []) v h = cc
from_segments-IsValid (a ∷ b ∷ []) v h = cc
from_segments-IsValid (a ∷ b ∷ c ∷ []) v h = record {
  major_valid = ground arith;
  minor_valid = ground arith;
  patch_valid = ground arith;
}
from_segments-IsValid (a ∷ b ∷ c ∷ d ∷ ss) v h = cc

parsed-IsValid : (s : List ℕ) (v : Version) → stable_version_parts s ≡ some v → IsValid v
unfolding stable_version_parts
parsed-IsValid s v h = from_segments-IsValid (split (drop_v s)) v (ground arith)

-- Versions as triples of numbers, in their order.
abbrev pub compare_numbers : Version → Version → Ordering
compare_numbers a b =
    or_else (compare (value a.major) (value b.major))
      (or_else (compare (value a.minor) (value b.minor)) (compare (value a.patch) (value b.patch)))

compare_parts-numbers :
    (a b : Version) → IsValid a → IsValid b → compare_parts a b ≡ compare_numbers a b
compare_parts-numbers a b va vb =
    rw
      (
        compare_segment-value a.major b.major va.major_valid vb.major_valid,
        compare_segment-value a.minor b.minor va.minor_valid vb.minor_valid,
        compare_segment-value a.patch b.patch va.patch_valid vb.patch_valid,
      )
      refl

compared_only :
    (left right : String) (o : Ordering)
    → compare_stable_versions left right ≡ some o
    → (a : Version) × (b : Version) × (stable_version_parts (codes left) ≡ some a)
      × (stable_version_parts (codes right) ≡ some b)
      × (o ≡ compare_numbers a b)
unfolding compare_stable_versions
compared_only left right o h = elim (Option-cases (stable_version_parts (codes left))) [
  | inl e ↦ absurd (ground arith)
  | inr (a, e) ↦ elim (Option-cases (stable_version_parts (codes right))) [
    | inl f ↦ absurd (ground arith)
    | inr (b, f) ↦ (
      a,
      b,
      e,
      f,
      ground (
        arith,
        compare_parts-numbers a b (parsed-IsValid (codes left) a e)
            (parsed-IsValid (codes right) b f),
      ),
    )
  ]
]

compared_both :
    (left right : String) (a b : Version)
    → stable_version_parts (codes left) ≡ some a
    → stable_version_parts (codes right) ≡ some b
    → compare_stable_versions left right ≡ some (compare_numbers a b)
unfolding compare_stable_versions
compared_both left right a b e f = ground (
  arith,
  e,
  f,
  compare_parts-numbers a b (parsed-IsValid (codes left) a e) (parsed-IsValid (codes right) b f),
)

-- A comparison by what is read of both texts.
pub compare_stable_versions-parsed :
    (left right : String) (o : Ordering)
    → (compare_stable_versions left right ≡ some o) ↔ (
        (a : Version) × (b : Version) × (stable_version_parts (codes left) ≡ some a)
        × (stable_version_parts (codes right) ≡ some b)
        × (o ≡ compare_numbers a b))
compare_stable_versions-parsed left right o = (
  compared_only left right o,
  λ (a, b, e, f, g). compared_both left right a b e f ∙ ap some (sym g),
)
