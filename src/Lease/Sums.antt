-- ===== src/Lease/Sums.antt =====
-- The sum of the reserved amounts along the hash.
use konzhitai.Prelude.{◌≡◌, String, Map, lookup, insert, erase, none, some, [], ◌∷◌, string_eq}
use konzhitai.Prelude.Int.{ℤ, pos, plus, minus, int_laws}
use konzhitai.Task.{Resources}

module _ (f : Resources → ℤ) where
  unfoldable pub sum_by : Map Resources → ℤ
  sum_by [] = pos 0
  sum_by ((k, a) ∷ m) = plus (f a) (sum_by m)

  pub sum_by-insert_new :
      (k : String) (a : Resources) (m : Map Resources)
      → lookup k m ≡ none
      → sum_by (insert k a m) ≡ plus (sum_by m) (f a)
  unfolding sum_by
  sum_by-insert_new k a [] h = omega int_laws
  sum_by-insert_new k a (e ∷ m) h = grind (int_laws, sum_by-insert_new k a m)

  pub sum_by-insert :
      (k : String) (a old : Resources) (m : Map Resources)
      → lookup k m ≡ some old
      → sum_by (insert k a m) ≡ plus (sum_by m) (minus (f a) (f old))
  unfolding sum_by
  sum_by-insert k a old [] h = cc
  sum_by-insert k a old (e ∷ m) h = grind (int_laws, sum_by-insert k a old m)

  pub sum_by-erase :
      (k : String) (old : Resources) (m : Map Resources)
      → lookup k m ≡ some old
      → sum_by (erase k m) ≡ minus (sum_by m) (f old)
  unfolding sum_by
  sum_by-erase k old [] h = cc
  sum_by-erase k old (e ∷ m) h = grind (int_laws, sum_by-erase k old m)
