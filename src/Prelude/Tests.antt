-- ===== src/Prelude/Tests.antt =====
-- Boolean tests on native numbers and texts, and the conditional.
use Prim.Native.Nat.{ℕ, ◌≤◌, ◌<◌, compare, Ordering}
use Prim.Native.String.{String}
use text.Mathlib.Text.{◌==◌ as text_eq}
use text.Mathlib.TextEquality.{eq_iff}
use mathlib.Core.Path.{◌≡◌, refl}
use mathlib.Core.Logic.{◌≢◌, ◌↔◌, ◌⊎◌, inl, inr}
use mathlib.Core.Bool.{Bool, true, false, not, false≢true}
use mathlib.Core.Option.{Option, none, some}
use native.Mathlib.Omega.{arith}

-- These compute to `compare`, which `ground` and `grind` read with no lemma listed.
abbrev pub ltb : ℕ → ℕ → Bool
ltb a b = elim (compare a b) [ Ordering.lt ↦ true | _ ↦ false ]

abbrev pub leb : ℕ → ℕ → Bool
leb a b = elim (compare a b) [ Ordering.gt ↦ false | _ ↦ true ]

abbrev pub nat_beq : ℕ → ℕ → Bool
nat_beq a b = elim (compare a b) [ Ordering.eq ↦ true | _ ↦ false ]

infix 1 if◌then◌else◌
abbrev pub if◌then◌else◌ {ℓ} : {A : Type ℓ} → Bool → A → A → A
if true then x else y = x
if false then x else y = y

dec_of_iff {ℓ} : {P : Type ℓ} (b : Bool) → (b ≡ true) ↔ P → Dec P
dec_of_iff true e = yes (e.0 refl)
dec_of_iff false e = no (λ p. false≢true (e.1 p))

-- Go's `==` on strings, as a decision; shut, so that the tactics read the equation of each branch.
unfoldable pub String_discrete : Discrete String
unfolding dec_of_iff
String_discrete s t = dec_of_iff (text_eq s t) (eq_iff s t)

abbrev pub decide {ℓ} : {P : Type ℓ} → Dec P → Bool
decide d = elim d [ yes _ ↦ true | no _ ↦ false ]

pub record Eq (A : Type 0) : Type 0 where
  pub beq : A → A → Bool

infix 50 ◌==◌ ◌!=◌
abbrev pub ◌==◌ : {A : Type 0} ⦃e : Eq A⦄ → A → A → Bool
◌==◌ ⦃e⦄ = e.beq

abbrev pub ◌!=◌ : {A : Type 0} ⦃e : Eq A⦄ → A → A → Bool
a != b = not (a == b)

instance abbrev pub nat_eq : Eq ℕ
nat_eq = record { beq = nat_beq }

instance abbrev pub string_eq : Eq String
string_eq = record { beq = λ a b. decide (String_discrete a b) }

-- `omega` reads a test through such lemmas.
pub ltb→lt : (a b : ℕ) → ltb a b ≡ true → a < b
ltb→lt a b h = ground arith

pub leb→le : (a b : ℕ) → leb a b ≡ true → a ≤ b
leb→le a b h = ground arith

pub ruleset tests = (arith, ltb→lt, leb→le)

-- To split on a computed value and keep the equation.
pub Bool-cases : (b : Bool) → (b ≡ true) ⊎ (b ≡ false)
Bool-cases true = inl refl
Bool-cases false = inr refl

pub Option-cases {ℓ} : {A : Type ℓ} (o : Option A) → (o ≡ none) ⊎ ((a : A) × (o ≡ some a))
Option-cases none = inl refl
Option-cases (some a) = inr (a, refl)

test_hit : ◌==◌ {A = String} "a" "a" ≡ true
unfolding String_discrete
test_hit = refl

str_sym : (a b : String) → (a == b) ≡ true → (b == a) ≡ true
str_sym a b h = ground arith

pub text_ne : (a b : String) → (a == b) ≡ false → a ≢ b
text_ne a b h e = ground (arith, h)
