-- ===== src/Task/Usage.antt =====
-- internal/agentprotocol/usage.go: what a process used, as an agent samples it.
use konzhitai.Prelude.{
  ◌≡◌, refl, Bool, true, false, not, ◌&&◌, ◌||◌, Option, none, some, Eq, ◌==◌, nat_eq, arith,
}
use konzhitai.Prelude.Int.{ℤ, pos, negsuc, ltb_ℤ}
use konzhitai.Clock.{Time, is_zero}

abbrev same_int : ℤ → ℤ → Bool
same_int (pos a) (pos b) = a == b
same_int (negsuc a) (negsuc b) = a == b
same_int _ _ = false

instance abbrev pub int_eq : Eq ℤ
int_eq = record { beq = same_int }

pub int_same : (a b : ℤ) → (a == b) ≡ true → a ≡ b
int_same (pos a) (pos b) h = ground (arith, h)
int_same (negsuc a) (negsuc b) h = ground (arith, h)
int_same (pos a) (negsuc b) h = absurd (ground (arith, h))
int_same (negsuc a) (pos b) h = absurd (ground (arith, h))

pub record ResourceUsage : Type 0 where
  pub sampled_at : Time
  pub cpu_time_millis : Option ℤ
  pub memory_bytes : Option ℤ
  pub peak_memory_bytes : Option ℤ
  pub processes : Option ℤ

abbrev not_negative : Option ℤ → Bool
not_negative none = true
not_negative (some n) = not (ltb_ℤ n (pos 0))

abbrev given : Option ℤ → Bool
given none = false
given (some _) = true

-- `Valid`, of a usage that is there.
unfoldable pub valid_usage : ResourceUsage → Bool
valid_usage u =
    not (is_zero u.sampled_at)
    && (not_negative u.cpu_time_millis
        && not_negative u.memory_bytes
        && not_negative u.peak_memory_bytes
        && not_negative u.processes)
    && (given u.cpu_time_millis
        || given u.memory_bytes
        || given u.peak_memory_bytes
        || given u.processes)

abbrev same_value : Option ℤ → Option ℤ → Bool
same_value none none = true
same_value (some a) (some b) = a == b
same_value _ _ = false

-- `Equal`; no usage is equal to no usage only.
unfoldable pub equal_usage : Option ResourceUsage → Option ResourceUsage → Bool
equal_usage none none = true
equal_usage (some u) (some v) =
    u.sampled_at == v.sampled_at
    && same_value u.cpu_time_millis v.cpu_time_millis
    && same_value u.memory_bytes v.memory_bytes
    && same_value u.peak_memory_bytes v.peak_memory_bytes
    && same_value u.processes v.processes
equal_usage _ _ = false

pub same_int_refl : (a : ℤ) → same_int a a ≡ true
same_int_refl (pos n) = ground arith
same_int_refl (negsuc n) = ground arith

same_value_refl : (a : Option ℤ) → same_value a a ≡ true
same_value_refl none = refl
same_value_refl (some n) = same_int_refl n

pub equal_usage_refl : (u : Option ResourceUsage) → equal_usage u u ≡ true
unfolding equal_usage
equal_usage_refl none = refl
equal_usage_refl (some u) = ground (
  arith,
  same_value_refl u.cpu_time_millis,
  same_value_refl u.memory_bytes,
  same_value_refl u.peak_memory_bytes,
  same_value_refl u.processes,
)
