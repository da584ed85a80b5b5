-- ===== src/Prelude/Maps.antt =====
-- Go maps with string keys as association lists: a write replaces, a missing key reads as none.
use Prim.Native.String.{String}
use mathlib.Core.Path.{◌≡◌, refl}
use mathlib.Core.List.{List, [], ◌∷◌}
use mathlib.Core.Logic.{◌≢◌}
use mathlib.Core.Option.{Option, none, some}
use native.Mathlib.Omega.{arith}
use konzhitai.Prelude.Tests.{if◌then◌else◌, ◌==◌, string_eq}

abbrev pub Map {ℓ} : Type ℓ → Type ℓ
Map V = List (String × V)

module _ {ℓ} {V : Type ℓ} where
  -- `v, ok := m[k]`
  abbrev pub lookup : String → Map V → Option V
  lookup k [] = none
  lookup k ((j, v) ∷ m) = if j == k then some v else lookup k m

  -- `m[k] = v`
  abbrev pub insert : String → V → Map V → Map V
  insert k v [] = (k, v) ∷ []
  insert k v ((j, w) ∷ m) = if j == k then (k, v) ∷ m else (j, w) ∷ insert k v m

  -- `delete(m, k)`
  abbrev pub erase : String → Map V → Map V
  erase k [] = []
  erase k ((j, w) ∷ m) = if j == k then m else (j, w) ∷ erase k m

  -- Every key is listed once.
  abbrev pub IsMap : Map V → Type ℓ
  IsMap [] = Unit
  IsMap ((k, v) ∷ m) = (lookup k m ≡ none) × IsMap m

  pub lookup-insert_self : (k : String) (v : V) (m : Map V) → lookup k (insert k v m) ≡ some v
  lookup-insert_self k v [] = ground arith
  lookup-insert_self k v (e ∷ m) = ground (arith, lookup-insert_self k v m)

  pub lookup-insert_ne :
      (j k : String) (v : V) (m : Map V) → j ≢ k → lookup j (insert k v m) ≡ lookup j m
  lookup-insert_ne j k v [] h = ground arith
  lookup-insert_ne j k v (e ∷ m) h = ground (arith, lookup-insert_ne j k v m h)

  pub lookup-erase_ne : (j k : String) (m : Map V) → j ≢ k → lookup j (erase k m) ≡ lookup j m
  lookup-erase_ne j k [] h = refl
  lookup-erase_ne j k (e ∷ m) h = ground (arith, lookup-erase_ne j k m h)

  pub lookup-erase_self : (k : String) (m : Map V) → IsMap m → lookup k (erase k m) ≡ none
  lookup-erase_self k [] h = refl
  lookup-erase_self k (e ∷ m) h = ground (arith, lookup-erase_self k m h.1)

  pub insert-IsMap : (k : String) (v : V) (m : Map V) → IsMap m → IsMap (insert k v m)
  insert-IsMap k v [] h = (refl, tt)
  insert-IsMap k v (e ∷ m) h = ground (arith, insert-IsMap k v m h.1, lookup-insert_ne e.0 k v m)

  pub erase-IsMap : (k : String) (m : Map V) → IsMap m → IsMap (erase k m)
  erase-IsMap k [] h = tt
  erase-IsMap k (e ∷ m) h = ground (arith, erase-IsMap k m h.1, lookup-erase_ne e.0 k m)
