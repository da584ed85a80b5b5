-- ===== src/Upgrade/Version.antt =====
-- internal/agentupgrade/version.go, over code points: a text with others than ASCII is refused either way.
pub mod Laws
pub mod Forms
use konzhitai.Prelude.{
  ℕ, suc, Bool, true, false, not, ◌&&◌, ◌||◌, String, Option, none, some, List, [], ◌∷◌, length,
  if◌then◌else◌, ltb, leb, ◌==◌, nat_eq, codes, all,
}
use Prim.Native.Nat.{compare, Ordering}

-- `strings.Split(version, ".")`
abbrev pub cons_head : ℕ → List (List ℕ) → List (List ℕ)
cons_head c [] = (c ∷ []) ∷ []
cons_head c (s ∷ ss) = (c ∷ s) ∷ ss

abbrev pub split : List ℕ → List (List ℕ)
split [] = [] ∷ []
split (c ∷ cs) = let rest = split cs in if c == b'.' then [] ∷ rest else cons_head c rest

abbrev pub leading_zero : List ℕ → Bool
leading_zero (c ∷ d ∷ cs) = c == b'0'
leading_zero _ = false

abbrev pub is_nil : List ℕ → Bool
is_nil [] = true
is_nil _ = false

abbrev pub valid_segment : List ℕ → Bool
valid_segment s = not (is_nil s || leading_zero s) && all (λ c. not (ltb c b'0' || ltb b'9' c)) s

abbrev pub drop_v : List ℕ → List ℕ
drop_v [] = []
drop_v (c ∷ cs) = if c == b'v' then cs else c ∷ cs

pub record Version : Type 0 where
  pub major : List ℕ
  pub minor : List ℕ
  pub patch : List ℕ

abbrev pub from_segments : List (List ℕ) → Option Version
from_segments (a ∷ b ∷ c ∷ []) =
    if valid_segment a && valid_segment b && valid_segment c
    then some (record { major = a; minor = b; patch = c })
    else none
from_segments _ = none

-- `stableVersionParts`
unfoldable pub stable_version_parts : List ℕ → Option Version
stable_version_parts version =
    if length version == 0 || ltb 64 (length version)
    then none
    else from_segments (split (drop_v version))

-- `strings.Compare`; -1, 0 and 1 are `lt`, `eq` and `gt`.
abbrev pub compare_text : List ℕ → List ℕ → Ordering
compare_text [] [] = Ordering.eq
compare_text [] (d ∷ ds) = Ordering.lt
compare_text (c ∷ cs) [] = Ordering.gt
compare_text (c ∷ cs) (d ∷ ds) =
    let rest = compare_text cs ds in
    elim (compare c d) [
      | Ordering.lt ↦ Ordering.lt
      | Ordering.gt ↦ Ordering.gt
      | Ordering.eq ↦ rest
    ]

abbrev pub compare_segment : List ℕ → List ℕ → Ordering
compare_segment a b =
    if ltb (length a) (length b)
    then Ordering.lt
    else if ltb (length b) (length a)
    then Ordering.gt
    else compare_text a b

abbrev pub or_else : Ordering → Ordering → Ordering
or_else Ordering.eq later = later
or_else first later = first

abbrev pub compare_parts : Version → Version → Ordering
compare_parts a b =
    or_else (compare_segment a.major b.major)
      (or_else (compare_segment a.minor b.minor) (compare_segment a.patch b.patch))

-- `compareStableVersions`
unfoldable pub compare_stable_versions : String → String → Option Ordering
unfolding stable_version_parts
compare_stable_versions left right = elim (stable_version_parts (codes left)) [
  | none ↦ none
  | some a ↦ elim (stable_version_parts (codes right)) [
    | none ↦ none
    | some b ↦ some (compare_parts a b)
  ]
]
