-- ===== src/Prelude/Sort.antt =====
-- `sort.SliceStable`: insertion from the right keeps the order of equal elements, and a stable
-- sort has one result for each `less` that is a strict weak order.
use mathlib.Core.Path.{◌≡◌}
use mathlib.Core.Bool.{Bool, true, false}
use mathlib.Core.List.{List, [], ◌∷◌, Perm}
use mathlib.Core.List.Perm
use mathlib.Core.Logic.{inl, inr}
use mathlib.Core.Logic.{◌≢◌}
use native.Mathlib.Omega.{arith}
use konzhitai.Prelude.Tests.{if◌then◌else◌, Bool-cases}
use konzhitai.Prelude.Lists.{All}

module _ {ℓ} {A : Type ℓ} (less : A → A → Bool) where
  -- `x` stood before `ys`, so it goes in front of its equals.
  pub place : A → List A → List A
  place x [] = x ∷ []
  place x (y ∷ ys) = let rest = place x ys in if less y x then y ∷ rest else x ∷ y ∷ ys

  unfoldable pub sort : List A → List A
  unfolding place
  sort [] = []
  sort (x ∷ xs) = place x (sort xs)

  -- No element is less than one that stands before it.
  abbrev pub IsSorted : List A → Type 0
  IsSorted [] = Unit
  IsSorted (x ∷ xs) = All (λ y. less y x ≡ false) xs × IsSorted xs

  pub record IsStrictWeak : Type ℓ where
    pub asym : (a b : A) → less a b ≡ true → less b a ≡ false
    pub trans : (a b c : A) → less b a ≡ false → less c b ≡ false → less c a ≡ false

  place-perm : (x : A) (ys : List A) → Perm (place x ys) (x ∷ ys)
  unfolding place
  place-perm x [] = Perm.refl (x ∷ [])
  place-perm x (y ∷ ys) =
      elim (less y x) as (λ b. Perm (if b then y ∷ place x ys else x ∷ y ∷ ys) (x ∷ y ∷ ys)) [
        | true ↦ Perm.trans (Perm.cons y (place-perm x ys)) (Perm.swap x y ys)
        | false ↦ Perm.refl (x ∷ y ∷ ys)
      ]

  place-ne-nil : (x : A) (ys : List A) → place x ys ≢ []
  unfolding place
  place-ne-nil x [] = ground arith
  place-ne-nil x (y ∷ ys) = ground arith

  pub sort-ne-nil : (x : A) (xs : List A) → sort (x ∷ xs) ≢ []
  unfolding sort
  sort-ne-nil x xs = place-ne-nil x (sort xs)

  pub sort-perm : (xs : List A) → Perm (sort xs) xs
  unfolding sort
  sort-perm [] = Perm.refl []
  sort-perm (x ∷ xs) = Perm.trans (place-perm x (sort xs)) (Perm.cons x (sort-perm xs))

  place-All {κ} : (P : A → Type κ) (x : A) (ys : List A) → P x → All P ys → All P (place x ys)
  unfolding place
  place-All P x [] hx h = (hx, tt)
  place-All P x (y ∷ ys) hx h =
      elim (less y x) as (λ b. All P (if b then y ∷ place x ys else x ∷ y ∷ ys)) [
        | true ↦ (h.0, place-All P x ys hx h.1)
        | false ↦ (hx, h)
      ]

  pub sort-All {κ} : (P : A → Type κ) (xs : List A) → All P xs → All P (sort xs)
  unfolding sort
  sort-All P [] h = tt
  sort-All P (x ∷ xs) h = place-All P x (sort xs) h.0 (sort-All P xs h.1)

  place-All_inv {κ} : (P : A → Type κ) (x : A) (ys : List A) → All P (place x ys) → P x × All P ys
  unfolding place
  place-All_inv P x [] h = h
  place-All_inv P x (y ∷ ys) h = step (less y x) (place-All_inv P x ys) h
    where
      step :
          (b : Bool)
          → (All P (place x ys) → P x × All P ys)
          → All P (if b then y ∷ place x ys else x ∷ y ∷ ys)
          → P x × (P y × All P ys)
      step true inner h = let (hx, hs) = inner h.1 in (hx, (h.0, hs))
      step false inner h = h

  pub sort-All_inv {κ} : (P : A → Type κ) (xs : List A) → All P (sort xs) → All P xs
  unfolding sort
  sort-All_inv P [] h = tt
  sort-All_inv P (x ∷ xs) h =
      let (hx, hs) = place-All_inv P x (sort xs) h in (hx, sort-All_inv P xs hs)

  module _ (w : IsStrictWeak) where
    below :
        (x y : A) (ys : List A)
        → less y x ≡ false
        → All (λ z. less z y ≡ false) ys
        → All (λ z. less z x ≡ false) ys
    below x y [] h a = tt
    below x y (z ∷ zs) h a = (w.trans x y z h a.0, below x y zs h a.1)

    place-IsSorted : (x : A) (ys : List A) → IsSorted ys → IsSorted (place x ys)
    unfolding place
    place-IsSorted x [] s = (tt, tt)
    place-IsSorted x (y ∷ ys) s = elim (Bool-cases (less y x)) [
      | inl before ↦
          rw before (
            place-All (λ z. less z y ≡ false) x ys (w.asym y x before) s.0,
            place-IsSorted x ys s.1,
          )
      | inr after ↦ rw after ((after, below x y ys after s.0), s)
    ]

    pub sort-IsSorted : (xs : List A) → IsSorted (sort xs)
    unfolding sort
    sort-IsSorted [] = tt
    sort-IsSorted (x ∷ xs) = place-IsSorted x (sort xs) (sort-IsSorted xs)
