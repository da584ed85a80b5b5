-- ===== src/Lease/Traces.antt =====
-- Any sequence of the three scripts on one server, from the empty keys.
use konzhitai.Prelude.{ℕ, refl, String, List, [], ◌∷◌}
use konzhitai.Task.{Resources}
use konzhitai.Lease.Sums.{sum_by}
use konzhitai.Lease.Scripts.{Server, empty_server, reserve, release, restore}
use konzhitai.Lease.Invariant.{
  IsBalanced, reserve-IsBalanced, release-IsBalanced, restore-IsBalanced,
}

pub data Script : Type 0 where
  reserves : ℕ → String → Resources → Resources → ℕ → String → Script
  releases : String → Script
  restores : String → Resources → ℕ → String → Script

unfoldable pub run_script : Server → Script → Server
run_script s (reserves now run_id required available expires_at lease_id) =
    (reserve now run_id required available expires_at lease_id s).0
run_script s (releases run_id) = release run_id s
run_script s (restores run_id resources expires_at lease_id) =
    restore run_id resources expires_at lease_id s

unfoldable pub run_scripts : Server → List Script → Server
unfolding run_script
run_scripts s [] = s
run_scripts s (x ∷ xs) = run_scripts (run_script s x) xs

run_scripts_from : (s : Server) (xs : List Script) → IsBalanced s → IsBalanced (run_scripts s xs)
unfolding run_scripts run_script
run_scripts_from s [] b = b
run_scripts_from s (reserves now r q a t id ∷ xs) b =
    run_scripts_from (reserve now r q a t id s).0 xs (reserve-IsBalanced now r q a t id s b)
run_scripts_from s (releases r ∷ xs) b =
    run_scripts_from (release r s) xs (release-IsBalanced r s b)
run_scripts_from s (restores r a t id ∷ xs) b =
    run_scripts_from (restore r a t id s) xs (restore-IsBalanced r a t id s b)

pub empty-IsBalanced : IsBalanced empty_server
unfolding empty_server sum_by
empty-IsBalanced = record {
  cpu_sum = refl;
  memory_sum = refl;
  disk_sum = refl;
  distinct = tt;
  timed = tt;
  paired = λ k. (λ _. refl, λ _. refl);
}

-- After any sequence of reserve, release and restore scripts, in any order and at any times, the three
-- counters are the sums of the amounts that the runs hold, no run is listed twice, and a run has an amount
-- exactly if it has an expiry.
pub run_scripts-IsBalanced : (xs : List Script) → IsBalanced (run_scripts empty_server xs)
run_scripts-IsBalanced xs = run_scripts_from empty_server xs empty-IsBalanced
