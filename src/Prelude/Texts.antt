-- ===== src/Prelude/Texts.antt =====
-- What the program uses of Go's `strings` package, over native texts.
use Prim.Native.Nat.{ℕ, ◌+◌}
use Prim.Native.Char.{code}
use Prim.Native.String.{String}
use mathlib.Core.Path.{◌≡◌, refl}
use mathlib.Core.Bool.{Bool, true, false, ◌&&◌, ◌||◌}
use mathlib.Core.List.{List, [], ◌∷◌}
use konzhitai.Prelude.Tests.{leb, if◌then◌else◌, ◌==◌, nat_eq, string_eq}
use konzhitai.Prelude.Lists.{any}

-- The code points of a text. `String` has its own `[]` and `∷`.
abbrev pub codes : String → List ℕ
codes String.[] = []
codes (String.◌∷◌ c s) = code c ∷ codes s

-- `unicode.IsSpace`
unfoldable pub is_space : ℕ → Bool
is_space c =
    leb 9 c && leb c 13
    || c == 32
    || c == 0x85
    || c == 0xa0
    || c == 0x1680
    || leb 0x2000 c && leb c 0x200a
    || c == 0x2028
    || c == 0x2029
    || c == 0x202f
    || c == 0x205f
    || c == 0x3000

-- `strings.TrimSpace(s) == ""`
unfoldable pub is_blank : String → Bool
unfolding is_space
is_blank String.[] = true
is_blank (String.◌∷◌ c s) = is_space (code c) && is_blank s

abbrev trim_left : List ℕ → List ℕ
trim_left [] = []
trim_left (c ∷ s) = let rest = trim_left s in if is_space c then rest else c ∷ s

abbrev is_empty : List ℕ → Bool
is_empty [] = true
is_empty _ = false

abbrev trim_right : List ℕ → List ℕ
trim_right [] = []
trim_right (c ∷ s) = let rest = trim_right s in if is_space c && is_empty rest then [] else c ∷ rest

-- `strings.TrimSpace`, over code points.
unfoldable pub trim_codes : List ℕ → List ℕ
unfolding is_space
trim_codes s = trim_right (trim_left s)

-- `strings.TrimSpace`
abbrev drop_left : String → String
drop_left String.[] = String.[]
drop_left (String.◌∷◌ c s) =
    let rest = drop_left s in if is_space (code c) then rest else String.◌∷◌ c s

abbrev no_text : String → Bool
no_text String.[] = true
no_text (String.◌∷◌ _ _) = false

abbrev drop_right : String → String
drop_right String.[] = String.[]
drop_right (String.◌∷◌ c s) =
    let rest = drop_right s in
    if is_space (code c) && no_text rest then String.[] else String.◌∷◌ c rest

unfoldable pub trim_space : String → String
unfolding is_space
trim_space s = drop_right (drop_left s)

-- Case folding of one code point: the ASCII letters, and the two others (Kelvin sign, long s) that fold into them. Of
-- the texts that are compared one is always a runtime that internal/script accepts (bash, python3, node, powershell),
-- so that folds between other letters decide nothing.
unfoldable pub fold_case : ℕ → ℕ
fold_case c =
    if leb b'A' c && leb c b'Z'
    then c + 32
    else if c == 0x212a
    then b'k'
    else if c == 0x17f
    then b's'
    else c

abbrev equal_fold_codes : List ℕ → List ℕ → Bool
equal_fold_codes [] [] = true
equal_fold_codes (a ∷ s) (b ∷ t) = fold_case a == fold_case b && equal_fold_codes s t
equal_fold_codes _ _ = false

-- `strings.EqualFold` of two texts of which one is ASCII, over code points.
unfoldable pub equal_fold : List ℕ → List ℕ → Bool
unfolding fold_case
equal_fold s t = equal_fold_codes s t

-- `slices.Contains` on strings.
abbrev pub contains : List String → String → Bool
contains xs a = any (λ x. a == x) xs

blank_test : is_blank " \t" ≡ true
unfolding is_blank
blank_test = refl

trim_test : trim_space "  ab c " ≡ "ab c"
unfolding trim_space
trim_test = refl

fold_test : equal_fold (codes "Python3") (codes "pYTHON3") ≡ true
unfolding equal_fold
fold_test = refl
