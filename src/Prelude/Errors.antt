-- ===== src/Prelude/Errors.antt =====
-- Go's `(value, error)` where only one of the two is meant.

pub data Result {ℓ} (E : Type 0) (A : Type ℓ) : Type ℓ where
  ok : A → Result E A
  err : E → Result E A
