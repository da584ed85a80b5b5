-- ===== src/Upgrade/Version/Forms.antt =====
-- The texts that `stableVersionParts` of internal/agentupgrade/version.go reads, described on their own.
use mathlib.Core.Path.{subst}
use Prim.Native.Nat.{Ordering}
use konzhitai.Prelude.{
  ◌↔◌, ◌⊎◌, inl, inr, sym, ap, ◌∙◌, ℕ, ◌≤◌, ◌≡◌, ◌≢◌, refl, String, Bool, true, false, not, ◌||◌,
  some, List, [], ◌∷◌, ◌++◌, All, all, length, ltb, ◌==◌, nat_eq, arith, codes, if◌then◌else◌,
}
use konzhitai.Upgrade.Version.{
  Version, valid_segment, stable_version_parts, compare_stable_versions, from_segments, split,
  cons_head, drop_v,
}
use konzhitai.Upgrade.Version.Laws.{compare_numbers, compare_stable_versions-parsed}

abbrev pub Digit : ℕ → Type 0
Digit c = (b'0' ≤ c) × (c ≤ b'9')

-- A number without a leading zero.
pub data Numeral : List ℕ → Type 0 where
  naught : Numeral (b'0' ∷ [])
  number : {c : ℕ} {cs : List ℕ} → Digit c → c ≢ b'0' → All Digit cs → Numeral (c ∷ cs)

abbrev pub dotted : Version → List ℕ
dotted v = v.major ++ (b'.' ∷ (v.minor ++ (b'.' ∷ v.patch)))

-- Three numbers with dots between, perhaps behind a v, in 64 characters at most.
pub record Reads (s : List ℕ) (v : Version) : Type 0 where
  pub short : length s ≤ 64
  pub text : (s ≡ dotted v) ⊎ (s ≡ b'v' ∷ dotted v)
  pub major_number : Numeral v.major
  pub minor_number : Numeral v.minor
  pub patch_number : Numeral v.patch

abbrev unsplit : List (List ℕ) → List ℕ
unsplit [] = []
unsplit (a ∷ []) = a
unsplit (a ∷ b ∷ rest) = a ++ (b'.' ∷ unsplit (b ∷ rest))

unsplit-cons_head : (c : ℕ) (ss : List (List ℕ)) → unsplit (cons_head c ss) ≡ c ∷ unsplit ss
unsplit-cons_head c [] = refl
unsplit-cons_head c (a ∷ []) = refl
unsplit-cons_head c (a ∷ b ∷ ss) = refl

split_some : (s : List ℕ) → split s ≢ []
split_some [] h = cc
split_some (c ∷ cs) h = step (c == b'.') (split cs) h
  where
    step : (b : Bool) (ss : List (List ℕ)) → (if b then [] ∷ ss else cons_head c ss) ≡ [] → ⊥
    step true ss h = cc
    step false [] h = cc
    step false (a ∷ ss) h = cc

unsplit-split : (s : List ℕ) → unsplit (split s) ≡ s
unsplit-split [] = refl
unsplit-split (c ∷ cs) = step (split cs) refl (unsplit-split cs) (c == b'.') refl
  where
    step :
        (ss : List (List ℕ))
        → split cs ≡ ss
        → unsplit ss ≡ cs
        → (b : Bool) → (c == b'.') ≡ b
        → unsplit (if b then [] ∷ ss else cons_head c ss) ≡ c ∷ cs
    step [] e ih b f = absurd (split_some cs e)
    step (a ∷ ss) e ih true f = ground (arith, ih, f)
    step (a ∷ ss) e ih false f = unsplit-cons_head c (a ∷ ss) ∙ ap (◌∷◌ c) ih

all_digits : (s : List ℕ) → all (λ c. not (ltb c b'0' || ltb b'9' c)) s ≡ true → All Digit s
all_digits [] h = tt
all_digits (c ∷ cs) h = ((ground (arith, h), ground (arith, h)), all_digits cs (ground (arith, h)))

digits_all : (s : List ℕ) → All Digit s → all (λ c. not (ltb c b'0' || ltb b'9' c)) s ≡ true
digits_all [] h = refl
digits_all (c ∷ cs) (d, ds) = ground (arith, d, digits_all cs ds)

valid_segment-Numeral : (s : List ℕ) → valid_segment s ≡ true → Numeral s
valid_segment-Numeral [] h = absurd (ground (arith, h))
valid_segment-Numeral (c ∷ []) h = one (c == b'0') refl
  where
    one : (b : Bool) → (c == b'0') ≡ b → Numeral (c ∷ [])
    one true e = subst (λ d. Numeral (d ∷ [])) (ground (arith, e)) Numeral.naught
    one false e =
        Numeral.number (ground (arith, h), ground (arith, h)) (λ f. ground (arith, e, f)) tt
valid_segment-Numeral (c ∷ d ∷ cs) h =
    Numeral.number (ground (arith, h), ground (arith, h)) (λ e. ground (arith, h, e))
      (all_digits (d ∷ cs) (ground (arith, h)))

number_valid :
    (c : ℕ) (cs : List ℕ) → Digit c → c ≢ b'0' → All Digit cs → valid_segment (c ∷ cs) ≡ true
number_valid c [] d ne ds = ground (arith, d)
number_valid c (e ∷ es) d ne ds = ground (arith, d, ne, digits_all (e ∷ es) ds)

Numeral-valid_segment : (s : List ℕ) → Numeral s → valid_segment s ≡ true
Numeral-valid_segment _ Numeral.naught = refl
Numeral-valid_segment _ (Numeral.number {c} {cs} d ne ds) = number_valid c cs d ne ds

split-digits : (s : List ℕ) → All Digit s → split s ≡ s ∷ []
split-digits [] h = refl
split-digits (c ∷ cs) (d, ds) = ground (arith, d, split-digits cs ds)

split_at_dot : (s t : List ℕ) → All Digit s → split (s ++ (b'.' ∷ t)) ≡ s ∷ split t
split_at_dot [] t h = refl
split_at_dot (c ∷ cs) t (d, ds) = ground (arith, d, split_at_dot cs t ds)

Numeral-digits : (s : List ℕ) → Numeral s → All Digit s
Numeral-digits _ Numeral.naught = ((omega arith, omega arith), tt)
Numeral-digits _ (Numeral.number d ne ds) = (d, ds)

from_segments-Reads :
    (ss : List (List ℕ)) (v : Version)
    → from_segments ss ≡ some v
    → (ss ≡ v.major ∷ v.minor ∷ v.patch ∷ []) × Numeral v.major × Numeral v.minor × Numeral v.patch
from_segments-Reads [] v h = cc
from_segments-Reads (a ∷ []) v h = cc
from_segments-Reads (a ∷ b ∷ []) v h = cc
from_segments-Reads (a ∷ b ∷ c ∷ []) v h = (
  ground (arith, h),
  valid_segment-Numeral v.major (ground (arith, h)),
  valid_segment-Numeral v.minor (ground (arith, h)),
  valid_segment-Numeral v.patch (ground (arith, h)),
)
from_segments-Reads (a ∷ b ∷ c ∷ d ∷ ss) v h = cc

drop_v-text : (s t : List ℕ) → drop_v s ≡ t → (s ≡ t) ⊎ (s ≡ b'v' ∷ t)
drop_v-text [] t h = inl h
drop_v-text (c ∷ cs) t h = step (c == b'v') refl h
  where
    step :
        (b : Bool)
        → (c == b'v') ≡ b
        → (if b then cs else c ∷ cs) ≡ t
        → (c ∷ cs ≡ t) ⊎ (c ∷ cs ≡ b'v' ∷ t)
    step true e g = inr (ground (arith, e, g))
    step false e g = inl g

parsed-Reads : (s : List ℕ) (v : Version) → stable_version_parts s ≡ some v → Reads s v
unfolding stable_version_parts
parsed-Reads s v h =
    let (is, a, b, c) = from_segments-Reads (split (drop_v s)) v (ground (arith, h)) in
    record {
      short = ground (arith, h);
      text = drop_v-text s (dotted v) (sym (unsplit-split (drop_v s)) ∙ ap unsplit is);
      major_number = a;
      minor_number = b;
      patch_number = c;
    }

split-dotted :
    (v : Version)
    → Numeral v.major
    → Numeral v.minor
    → Numeral v.patch
    → split (dotted v) ≡ v.major ∷ v.minor ∷ v.patch ∷ []
split-dotted v a b c =
    split_at_dot v.major (v.minor ++ (b'.' ∷ v.patch)) (Numeral-digits v.major a)
    ∙ ap (◌∷◌ v.major) (
        split_at_dot v.minor v.patch (Numeral-digits v.minor b)
        ∙ ap (◌∷◌ v.minor) (split-digits v.patch (Numeral-digits v.patch c)))

drop_v-numeral : (s t : List ℕ) → Numeral s → drop_v (s ++ t) ≡ s ++ t
drop_v-numeral _ t Numeral.naught = refl
drop_v-numeral _ t (Numeral.number d ne ds) = ground (arith, d)

drop_v-Reads : (s : List ℕ) (v : Version) → Reads s v → drop_v s ≡ dotted v
drop_v-Reads s v r = step r.text
  where
    step : (s ≡ dotted v) ⊎ (s ≡ b'v' ∷ dotted v) → drop_v s ≡ dotted v
    step (inl e) =
        ap drop_v e ∙ drop_v-numeral v.major (b'.' ∷ (v.minor ++ (b'.' ∷ v.patch))) r.major_number
    step (inr e) = ap drop_v e

numeral_full : (s t : List ℕ) → Numeral s → [] ≢ s ++ t
numeral_full _ t Numeral.naught h = cc
numeral_full _ t (Numeral.number d ne ds) h = cc

not_empty : (s : List ℕ) (v : Version) → drop_v s ≡ dotted v → Numeral v.major → length s ≢ 0
not_empty [] v e n h = numeral_full v.major (b'.' ∷ (v.minor ++ (b'.' ∷ v.patch))) n e
not_empty (c ∷ cs) v e n h = ground (arith, h)

segments_read :
    (v : Version)
    → Numeral v.major
    → Numeral v.minor
    → Numeral v.patch
    → from_segments (v.major ∷ v.minor ∷ v.patch ∷ []) ≡ some v
segments_read v a b c = ground (
  arith,
  Numeral-valid_segment v.major a,
  Numeral-valid_segment v.minor b,
  Numeral-valid_segment v.patch c,
)

Reads-parsed : (s : List ℕ) (v : Version) → Reads s v → stable_version_parts s ≡ some v
unfolding stable_version_parts
Reads-parsed s v r =
    let e = drop_v-Reads s v r in
    let full = not_empty s v e r.major_number in
    let is = ap split e ∙ split-dotted v r.major_number r.minor_number r.patch_number in
    let segments =
      ap from_segments is ∙ segments_read v r.major_number r.minor_number r.patch_number in
    ground (arith, full, r.short, segments)

-- Two texts compare if and only if both are three numbers without leading zeros, with dots between, perhaps behind a v,
-- in 64 characters at most; and then as the numbers do, of which the first that differs decides.
pub compare_stable_versions-order :
    (left right : String) (o : Ordering)
    → (compare_stable_versions left right ≡ some o) ↔ (
        (a : Version) × (b : Version) × Reads (codes left) a
        × Reads (codes right) b
        × (o ≡ compare_numbers a b))
compare_stable_versions-order left right o =
    let (only, both) = compare_stable_versions-parsed left right o in
    (
      λ h.
          let (a, b, e, f, g) = only h in
          (a, b, parsed-Reads (codes left) a e, parsed-Reads (codes right) b f, g),
      λ (a, b, r, q, g).
          both (a, b, Reads-parsed (codes left) a r, Reads-parsed (codes right) b q, g),
    )
