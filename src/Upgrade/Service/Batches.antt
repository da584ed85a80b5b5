-- ===== src/Upgrade/Service/Batches.antt =====
-- The batches that `CreatePlan` forms: one server first, then at most `BatchSize` at a time.
use native.Mathlib.Nat.{le-div_iff_mul-le, div-lt_iff_lt-mul}
use konzhitai.Prelude.{ℕ, zero, suc, ◌+◌, ◌*◌, ◌/◌, ◌≤◌, ◌<◌, ◌≡◌, ◌↔◌, refl, arith}
use konzhitai.Prelude.Int.{pos}
use konzhitai.Upgrade.Service.Create.{batch_number}

-- For a positive size: the first batch is the first server, and batch 2 + c is the servers from index
-- c * size + 1 up to (c + 1) * size.
pub batch_number-ranges :
    (size index : ℕ)
    → 0 < size
    → ((batch_number (pos size) index ≡ 1) ↔ (index ≡ 0))
      × ((c : ℕ)
          → (batch_number (pos size) index ≡ 2 + c)
            ↔ ((c * size < index) × (index ≤ (c + 1) * size)))
unfolding batch_number
batch_number-ranges size zero h =
    ((λ _. refl, λ _. refl), λ c. (λ e. absurd (ground arith), λ r. absurd (ground arith)))
batch_number-ranges size (suc j) h = (
  (λ e. absurd (ground arith), λ e. absurd (ground arith)),
  λ c.
      let low : (c ≤ j / size) ↔ (c * size ≤ j) = le-div_iff_mul-le h in
      let high : (j / size < c + 1) ↔ (j < (c + 1) * size) = div-lt_iff_lt-mul h in
      (λ e. (ground (arith, low.0), ground (arith, high.0)), λ r. ground (arith, low.1, high.1)),
)
