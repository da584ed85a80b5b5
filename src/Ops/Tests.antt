-- ===== src/Ops/Tests.antt =====
-- Two samples of one server, the second of them when memory is low again, and the scan of a server without heartbeat.
use konzhitai.Prelude.{
  ℕ, ◌+◌, ◌*◌, ◌/◌, ◌≡◌, refl, arith, String_discrete, true, false, none, some, [], ◌∷◌, ltb,
}
use konzhitai.Prelude.Int.{pos, pos_part, ◌+ℤ◌}
use konzhitai.Alert.{warning}
use konzhitai.Clock.{Time}
use konzhitai.Ops.{RuleState, RuleKey, Evaluation, advance_all}
use konzhitai.Ops.Apply.{RuleKey_discrete, new_row, apply}
use konzhitai.Ops.Apply.Rows.{of_key, apply-rows}
use konzhitai.Ops.Rules.{Floats, RuleSnapshot, evaluate_snapshot}
use konzhitai.Ops.Scan.{AlertSink, scan}
use konzhitai.Ops.Scan.Settled.{settled_after, scan-settled}
use konzhitai.Ops.Hysteresis.{advance_all-replay, advance_all-bad}

abbrev new_state : RuleState ℕ
new_state = record {
  active = false;
  desired_active = false;
  consecutive_bad = pos 0;
  consecutive_good = pos 0;
  last_value = none;
  last_evaluated_at = 0;
}

abbrev low_at : Time → Evaluation ℕ
low_at t = record {
  key = record { code = "memory_low"; source_type = "server"; source_id = "s1" };
  bad = true;
  good = false;
  value = some 8;
  evaluated_at = t;
  required_consecutive = pos 2;
  sample_based = true;
  event = record {
    resource_type = "server";
    resource_id = "s1";
    code = "memory_low";
    severity = warning;
    title = "memory";
    message = "low";
  };
}

once : (advance_all (low_at 10 ∷ low_at 10 ∷ []) new_state).desired_active ≡ false
unfolding advance_all ◌+ℤ◌
once = refl

advance_all-replay_example :
    advance_all (low_at 10 ∷ low_at 20 ∷ []) (advance_all (low_at 10 ∷ low_at 20 ∷ []) new_state)
    ≡ advance_all (low_at 10 ∷ low_at 20 ∷ []) new_state
advance_all-replay_example =
    advance_all-replay (low_at 10 ∷ low_at 20 ∷ []) new_state (refl, (refl, tt))

advance_all-bad_example : (advance_all (low_at 10 ∷ low_at 20 ∷ []) new_state).desired_active ≡ true
advance_all-bad_example =
    advance_all-bad 2 (low_at 10 ∷ low_at 20 ∷ []) new_state (omega arith)
      (refl, refl, refl, (refl, refl, refl, tt)) (omega arith) refl

abbrev memory_key : RuleKey
memory_key = record { code = "memory_low"; source_type = "server"; source_id = "s1" }

apply-rows_example :
    (apply true (low_at 10 ∷ low_at 20 ∷ []) (λ k. none)).1 memory_key
    ≡ some (advance_all (low_at 10 ∷ low_at 20 ∷ []) new_row)
unfolding String_discrete RuleKey_discrete
apply-rows_example = apply-rows (low_at 10 ∷ low_at 20 ∷ []) (λ k. none) memory_key

-- Whole numbers in place of the type float64, and alerts that count their calls.
abbrev whole : Floats
whole = record {
  Value = ℕ;
  percent = λ a b. pos_part a * 100 / pos_part b;
  below = ltb;
  above = λ a b. ltb b a;
}

abbrev counting : AlertSink
counting = record { State = ℕ; raise = λ e n. (true, n + 1); resolve = λ k n. (true, n + 1) }

abbrev silent_server : RuleSnapshot
silent_server = record {
  servers =
      record {
        id = "s1";
        name = "one";
        enabled = true;
        draining = false;
        last_seen_at = none;
        samples = [];
      }
      ∷ [];
  runs = [];
}

abbrev offline_key : RuleKey
offline_key = record { code = "agent_offline"; source_type = "server"; source_id = "s1" }

raised_once :
    (scan whole counting (λ k. true) (some silent_server) true 900_000_000_000 (0, λ k. none)).1.0
    ≡ 1
unfolding scan konzhitai.Prelude.Sort.sort RuleKey_discrete String_discrete konzhitai.Ops.advance
    ◌+ℤ◌
raised_once = refl

scan-settled_example :
    (scan whole counting (λ k. true) (some silent_server) true 900_000_000_000 (0, λ k. none)).1.1
      offline_key
    ≡ settled_after
        (of_key offline_key (evaluate_snapshot whole silent_server 900_000_000_000))
        none
unfolding scan konzhitai.Prelude.Sort.sort RuleKey_discrete String_discrete konzhitai.Ops.advance
    ◌+ℤ◌
scan-settled_example =
    scan-settled whole counting (λ k. true) silent_server true 900_000_000_000 0 (λ k. none)
      offline_key refl
