-- ===== src/Upgrade/Tests.antt =====
-- Plans of internal/agentupgrade with a few targets, on a store that answers the same each time.
use Prim.Native.Nat.{Ordering}
use konzhitai.Prelude.{
  ℕ, ◌+◌, ◌*◌, ◌<◌, ◌≤◌, ◌≡◌, ◌≢◌, ◌↔◌, refl, Bool, true, false, ◌||◌, String, Option, none, some,
  List, [], ◌∷◌, Result, ok, err, arith, codes,
}
use konzhitai.Prelude.Actions.{give}
use konzhitai.Prelude.Int.{pos, ◌*ℤ◌}
use konzhitai.Upgrade.Types.{
  Plan, PlanStatus, Target, TargetStatus, PlanStatus_discrete, UpgradeStage, ReleaseInfo,
  ServerInfo, ServerRuntime, CreatePlanInput, all_targets_terminal,
}
use konzhitai.Upgrade.Version.{Version, compare_stable_versions}
use konzhitai.Upgrade.Version.Laws.{compare_numbers}
use konzhitai.Upgrade.Version.Forms.{Reads, compare_stable_versions-order}
use konzhitai.Upgrade.Rollback.{rollback_batch, RollsBack, rollback_batch-settles, paused_for}
use konzhitai.Upgrade.Coordinator.{Stores}
use konzhitai.Upgrade.Coordinator.Scan.{Pass, visit_all, may_start_target, close_batch, on_draining}
use konzhitai.Upgrade.Coordinator.Frames.{Frames}
use konzhitai.Upgrade.Coordinator.Passes.{MayStart, scan_pass-Frames}
use konzhitai.Upgrade.Coordinator.Events.{change_of, moves}
use konzhitai.Upgrade.Coordinator.Order.{Position, Reports, Forward, change_of-Forward}
use konzhitai.Upgrade.Coordinator.Closing.{Closes, close_batch-Closes}
use konzhitai.Upgrade.Service.{Repository}
use konzhitai.Upgrade.Service.Create.{batch_number, create_plan}
use konzhitai.Upgrade.Service.Batches.{batch_number-ranges}
use konzhitai.Upgrade.Service.Control.{cancelled_plan, retried}
use konzhitai.Upgrade.Service.Cancels.{Cancels, cancelled_plan-targets}

abbrev target : String → ℕ → TargetStatus → Target
target id batch status = record {
  id = id;
  plan_id = "p";
  server_id = id;
  server_name = "";
  batch_number = batch;
  source_version = "1.9.0";
  target_version = "1.10.0";
  source_draining = false;
  status = status;
  attempts = pos 0;
  command_id = "c";
  install_command_id = "c";
  error_code = "";
  error_message = "";
  started_at = some 1;
  updated_at = 1;
  finished_at = none;
}

abbrev plan : List Target → Plan
plan targets = record {
  id = "p";
  target_release_id = "rel";
  target_version = "1.10.0";
  status = PlanStatus.running;
  first_batch_size = pos 1;
  batch_size = pos 2;
  drain_timeout_seconds = pos 60;
  reconnect_timeout_seconds = pos 30;
  verification_seconds = pos 10;
  current_batch = 1;
  revision = pos 0;
  cancel_requested = false;
  created_by = "u";
  pause_reason = "";
  created_at = 1;
  started_at = some 1;
  finished_at = none;
  targets = targets;
}

abbrev two_targets : Plan
two_targets = plan (target "a" 1 TargetStatus.waiting ∷ target "b" 2 TargetStatus.waiting ∷ [])

abbrev release_info : ReleaseInfo
release_info = record {
  id = "rel";
  version = "1.10.0";
  status = "available";
  capabilities = "self_upgrade_v1" ∷ [];
  artifacts =
      record {
        os = "linux";
        arch = "amd64";
        file_name = "f";
        sha256 = "h";
        download_url = "u";
        byte_size = pos 1;
      }
      ∷ [];
}

abbrev server_info : String → ServerInfo
server_info id = record {
  id = id;
  status = "online";
  agent_version = "1.9.0";
  agent_os = "linux";
  agent_arch = "amd64";
  enabled = true;
  draining = false;
  capabilities = "self_upgrade_v1" ∷ [];
}

abbrev runtime : ServerRuntime
runtime = record {
  status = "online";
  enabled = true;
  draining = false;
  running_tasks = pos 0;
  agent_version = "1.9.0";
  agent_os = "linux";
  agent_arch = "amd64";
  last_seen_at = some 5;
  has_snapshot = true;
}

abbrev stores : Stores
stores = record {
  State = Unit {0};
  now = λ s. (100, s);
  new_id = λ s. ("n", s);
  active_plan = give (some two_targets);
  save_plan = λ p. give p;
  release = λ id. give release_info;
  server_runtime = λ id. give runtime;
  set_server_draining = λ id b. give tt;
  append_event = λ e. give tt;
  send = λ c. give tt;
}

abbrev repository : Repository
repository = record {
  State = Unit {0};
  now = λ s. (100, s);
  new_id = λ s. ("n", s);
  active_plan = give none;
  release = λ id. give release_info;
  release_by_version = λ v. give release_info;
  servers = λ ids. give (server_info "a" ∷ server_info "b" ∷ []);
  create_plan = λ p. give p;
  plan = λ id. give two_targets;
  save_plan = λ p. give p;
}

below : compare_stable_versions "v1.9.0" "1.10.0" ≡ some Ordering.lt
unfolding compare_stable_versions
below = refl

compare_stable_versions-order_example :
    (compare_stable_versions "v1.9.0" "1.10.0" ≡ some Ordering.lt) ↔ (
      (a : Version) × (b : Version) × Reads (codes "v1.9.0") a
      × Reads (codes "1.10.0") b
      × (Ordering.lt ≡ compare_numbers a b))
compare_stable_versions-order_example = compare_stable_versions-order "v1.9.0" "1.10.0" Ordering.lt

abbrev failing : Plan
failing = plan (
    target "a" 1 TargetStatus.succeeded
    ∷ target "b" 1 TargetStatus.downloading
    ∷ target "c" 2 TargetStatus.waiting
    ∷ [])

rollback_batch-settles_example :
    ((rollback_batch stores.new_id failing 1 "b" "x" 100 tt).0.status ≡ PlanStatus.paused)
    × RollsBack stores.new_id 1 failing.targets
        (rollback_batch stores.new_id failing 1 "b" "x" 100 tt).0.targets
rollback_batch-settles_example = rollback_batch-settles stores.new_id failing 1 "b" "x" 100 tt

abbrev passed : Pass
passed = record {
  plan = plan (
      record (target "a" 1 TargetStatus.draining) { started_at = some 100; updated_at = 100 }
      ∷ target "b" 2 TargetStatus.waiting
      ∷ []);
  changed = true;
  commands = [];
  may_start = true;
}

pass_runs :
    visit_all stores 100 2 0
      (record {
        plan = two_targets;
        changed = false;
        commands = [];
        may_start = may_start_target two_targets;
      })
      tt
    ≡ (ok passed, tt)
unfolding visit_all PlanStatus_discrete
pass_runs = refl

scan_pass-Frames_example :
    (may : Bool) × (may ≡ true → MayStart two_targets)
    × Frames may false 1 two_targets.targets passed.plan.targets
    × (passed.plan.current_batch ≡ 1)
scan_pass-Frames_example = scan_pass-Frames stores 100 two_targets 2 passed tt tt pass_runs

abbrev finished : Pass
finished = record {
  plan = plan (target "a" 1 TargetStatus.succeeded ∷ target "b" 2 TargetStatus.waiting ∷ []);
  changed = true;
  commands = [];
  may_start = true;
}

close_batch-Closes_example :
    ((close_batch 100 finished).plan.targets ≡ finished.plan.targets)
    × Closes finished
        (close_batch 100 finished).plan.status
        (close_batch 100 finished).plan.current_batch
close_batch-Closes_example = close_batch-Closes 100 finished

change_of-Forward_example :
    (change_of TargetStatus.downloading UpgradeStage.installing ≡ moves TargetStatus.installing) ↔ (
      Reports UpgradeStage.installing TargetStatus.installing
      × Forward TargetStatus.downloading TargetStatus.installing)
change_of-Forward_example =
    change_of-Forward TargetStatus.downloading TargetStatus.installing UpgradeStage.installing

change : change_of TargetStatus.downloading UpgradeStage.installing ≡ moves TargetStatus.installing
change =
    change_of-Forward_example.1 (
      Reports.installs,
      Forward.onward Position.at_downloading Position.at_installing (omega arith),
    )

abbrev input : CreatePlanInput
input = record {
  target_release_id = "rel";
  server_ids = "a" ∷ "b" ∷ [];
  batch_size = pos 2;
  drain_timeout_seconds = pos 0;
  reconnect_timeout_seconds = pos 60;
  verification_seconds = pos 60;
  created_by = "u";
}

abbrev new_target : String → ℕ → Target
new_target id batch = record (target id batch TargetStatus.waiting) {
  id = "n";
  plan_id = "n";
  command_id = "n";
  install_command_id = "n";
  started_at = none;
  updated_at = 100;
}

abbrev created : Plan
created = record (plan (new_target "a" 1 ∷ new_target "b" 2 ∷ [])) {
  id = "n";
  drain_timeout_seconds = pos 3600;
  reconnect_timeout_seconds = pos 60;
  verification_seconds = pos 60;
  created_at = 100;
  started_at = some 100;
}

batch_number-ranges_example :
    ((batch_number (pos 2) 3 ≡ 1) ↔ (◌≡◌ {A = ℕ} 3 0))
    × ((c : ℕ) → (batch_number (pos 2) 3 ≡ 2 + c) ↔ ((c * 2 < 3) × (3 ≤ (c + 1) * 2)))
batch_number-ranges_example = batch_number-ranges 2 3 (omega arith)

-- A target that started to drain two minutes before is retried after it was rolled back, and times out at once.
abbrev slow : Target
slow = target "a" 1 TargetStatus.rolled_back

abbrev scanning : Pass
scanning = record { plan = two_targets; changed = false; commands = []; may_start = true }

times_out :
    on_draining stores 120_000_000_000 0 (retried slow "c2" 119_000_000_000) scanning tt
    ≡ (ok (record scanning { plan = paused_for "服务器排空超时" two_targets; changed = true }), tt)
unfolding on_draining retried ◌*ℤ◌
times_out = refl

abbrev cancelled : Plan
cancelled = cancelled_plan 100 failing

cancelled_plan-targets_example :
    Cancels failing.targets cancelled.targets
    × (cancelled.cancel_requested ≡ true)
    × ((cancelled.status ≡ PlanStatus.cancelled) ↔ (all_targets_terminal cancelled ≡ true))
    × (cancelled.status ≢ PlanStatus.cancelled → cancelled.status ≡ PlanStatus.paused)
cancelled_plan-targets_example = cancelled_plan-targets 100 failing
