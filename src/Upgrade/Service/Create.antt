-- ===== src/Upgrade/Service/Create.antt =====
-- `CreatePlan` and `CreateRollbackPlan` of internal/agentupgrade/service.go.
use Prim.Native.Nat.{Ordering}
use konzhitai.Prelude.{
  ℕ, zero, suc, ◌+◌, ◌/◌, Bool, true, false, not, ◌&&◌, ◌||◌, String, Option, none, some, List, [],
  ◌∷◌, length, find, contains, is_blank, if◌then◌else◌, ◌==◌, ◌!=◌, nat_eq, string_eq,
}
use konzhitai.Prelude.Actions.{Action, ◌>>=◌, ◌>>◌, give, fail, lift, guard}
use konzhitai.Prelude.Int.{ℤ, pos, pos_part, ltb_ℤ}
use konzhitai.Clock.{Time}
use konzhitai.Upgrade.Types.{
  Plan, PlanStatus, plan_status_eq, Target, TargetStatus, target_status_eq, CreatePlanInput,
  ReleaseInfo, ServerInfo, Error,
}
use konzhitai.Upgrade.Version.{compare_stable_versions}
use konzhitai.Upgrade.Service.{Repository, self_upgrade, has_artifact, usable, reachable}

abbrev pub or_default : ℤ → ℤ → ℤ
or_default (pos zero) d = d
or_default n d = n

unfoldable pub apply_plan_defaults : CreatePlanInput → CreatePlanInput
apply_plan_defaults input = record input {
  batch_size = or_default input.batch_size (pos 1);
  drain_timeout_seconds = or_default input.drain_timeout_seconds (pos 3600);
  reconnect_timeout_seconds = or_default input.reconnect_timeout_seconds (pos 120);
  verification_seconds = or_default input.verification_seconds (pos 30);
}

abbrev outside : ℤ → ℕ → ℕ → Bool
outside n low high = ltb_ℤ n (pos low) || ltb_ℤ (pos high) n

-- The loop over the server ids: none is blank, none is named twice.
unfoldable pub valid_ids : List String → List String → Bool
valid_ids seen [] = true
valid_ids seen (id ∷ ids) =
    let rest = valid_ids (id ∷ seen) ids in if is_blank id || contains seen id then false else rest

-- `validatePlanInput`
unfoldable pub valid_plan_input : CreatePlanInput → Bool
unfolding valid_ids
valid_plan_input input =
    not (
      is_blank input.target_release_id
      || is_blank input.created_by
      || length input.server_ids == 0
      || outside input.batch_size 1 100
      || outside input.drain_timeout_seconds 60 86400
      || outside input.reconnect_timeout_seconds 30 3600
      || outside input.verification_seconds 10 600)
    && valid_ids [] input.server_ids

-- The batch of the server at `index`; the size is at least 1 when this is reached.
unfoldable pub batch_number : ℤ → ℕ → ℕ
batch_number batch_size zero = 1
batch_number batch_size (suc index) = 2 + index / pos_part batch_size

-- What a server must answer to for an upgrade, and for a rollback of `source`.
abbrev pub upgrade_error : Option Ordering → Option Error
upgrade_error none = some Error.version_not_comparable
upgrade_error (some Ordering.eq) = some Error.no_upgrade_needed
upgrade_error (some Ordering.gt) = some Error.downgrade_not_allowed
upgrade_error (some Ordering.lt) = none

unfoldable pub direction_error : ReleaseInfo → Option Target → ServerInfo → Option Error
direction_error release (some source) server =
    if server.id != source.server_id || server.agent_version != source.target_version
    then some Error.rollback_source_changed
    else if server.agent_version == release.version
    then some Error.no_upgrade_needed
    else none
direction_error release none server =
    upgrade_error (compare_stable_versions server.agent_version release.version)

unfoldable pub server_error : ReleaseInfo → Option Target → ServerInfo → Option Error
unfolding direction_error
server_error release source server =
    if not (reachable server)
    then some Error.server_ineligible
    else if not (contains server.capabilities self_upgrade)
    then some Error.upgrade_unsupported
    else elim (direction_error release source server) [
      | some e ↦ some e
      | none ↦
          if not (has_artifact release server.agent_os server.agent_arch)
          then some Error.artifact_unavailable
          else none
    ]

unfoldable pub new_target : Plan → ReleaseInfo → Time → ℕ → ServerInfo → String → String → Target
unfolding batch_number
new_target plan release now index server command_id id = record {
  id = id;
  plan_id = plan.id;
  server_id = server.id;
  server_name = "";
  batch_number = batch_number plan.batch_size index;
  source_version = server.agent_version;
  target_version = release.version;
  source_draining = server.draining;
  status = TargetStatus.waiting;
  attempts = pos 0;
  command_id = command_id;
  install_command_id = command_id;
  error_code = "";
  error_message = "";
  started_at = none;
  updated_at = now;
  finished_at = none;
}

unfoldable pub new_plan : CreatePlanInput → ReleaseInfo → Time → String → Plan
new_plan input release now id = record {
  id = id;
  target_release_id = release.id;
  target_version = release.version;
  status = PlanStatus.running;
  first_batch_size = pos 1;
  batch_size = input.batch_size;
  drain_timeout_seconds = input.drain_timeout_seconds;
  reconnect_timeout_seconds = input.reconnect_timeout_seconds;
  verification_seconds = input.verification_seconds;
  current_batch = 1;
  revision = pos 0;
  cancel_requested = false;
  created_by = input.created_by;
  pause_reason = "";
  created_at = now;
  started_at = some now;
  finished_at = none;
  targets = [];
}

-- The first test on a rollback's source.
abbrev pub source_mismatch : CreatePlanInput → Option Target → Bool
source_mismatch input none = false
source_mismatch input (some source) =
    source.status != TargetStatus.succeeded || not (is_only input.server_ids)
  where
    is_only : List String → Bool
    is_only (id ∷ []) = id == source.server_id
    is_only _ = false

abbrev pub version_mismatch : ReleaseInfo → Option Target → Bool
version_mismatch release none = false
version_mismatch release (some source) = release.version != source.source_version

module _ (repository : Repository) where
  open repository use {State}

  abbrev C : Type 0 → Type 0
  C = Action State Error

  abbrev pub or_error : {A : Type 0} → Option Error → C A → C A
  or_error none m = m
  or_error (some e) m = fail e

  -- The loop over the servers.
  unfoldable pub build_targets :
      Plan → ReleaseInfo → Option Target → Time → ℕ → List ServerInfo → C (List Target)
  unfolding server_error new_target
  build_targets plan release source now index [] = give []
  build_targets plan release source now index (server ∷ servers) =
      let rest = build_targets plan release source now (suc index) servers in
      or_error (server_error release source server) (
        lift repository.new_id >>= λ command_id. lift repository.new_id >>= λ id.
        rest >>= λ targets. give (new_target plan release now index server command_id id ∷ targets))

  abbrev pub none_active : Option Plan → C (Unit {0})
  none_active none = give tt
  none_active (some _) = fail Error.active_plan_exists

  -- `createPlan`, from the end to the start; the defaults are in `create_plan`.
  unfoldable pub create_targets :
      CreatePlanInput → Option Target → ReleaseInfo → List ServerInfo → C Plan
  unfolding build_targets new_plan
  create_targets input source release servers = do
    now ← lift repository.now
    id ← lift repository.new_id
    targets ← build_targets (new_plan input release now id) release source now 0 servers
    repository.create_plan (record (new_plan input release now id) { targets = targets })

  unfoldable pub create_listed : CreatePlanInput → Option Target → ReleaseInfo → C Plan
  unfolding create_targets
  create_listed input source release = do
    servers ← repository.servers input.server_ids
    guard (length servers != length input.server_ids) Error.server_ineligible
    create_targets input source release servers

  unfoldable pub create_released : CreatePlanInput → Option Target → ReleaseInfo → C Plan
  unfolding create_listed
  create_released input source release = do
    guard (not (usable release)) Error.upgrade_unsupported
    guard (version_mismatch release source) Error.invalid_transition
    create_listed input source release

  unfoldable pub create_unopposed : CreatePlanInput → Option Target → C Plan
  unfolding create_released
  create_unopposed input source = do
    active ← repository.active_plan
    none_active active
    release ← repository.release input.target_release_id
    create_released input source release

  unfoldable pub create_valid : CreatePlanInput → Option Target → C Plan
  unfolding create_unopposed
  create_valid input source = do
    guard (not (valid_plan_input input)) Error.invalid_plan
    guard (source_mismatch input source) Error.invalid_transition
    create_unopposed input source

  unfoldable pub create_plan : CreatePlanInput → Option Target → C Plan
  unfolding create_valid apply_plan_defaults
  create_plan input source = create_valid (apply_plan_defaults input) source

  abbrev ended : PlanStatus → Bool
  ended s = s == PlanStatus.succeeded || s == PlanStatus.cancelled

  abbrev rollback_input : Plan → Target → ReleaseInfo → String → CreatePlanInput
  rollback_input original source release actor_id = record {
    target_release_id = release.id;
    server_ids = source.server_id ∷ [];
    batch_size = pos 1;
    drain_timeout_seconds = original.drain_timeout_seconds;
    reconnect_timeout_seconds = original.reconnect_timeout_seconds;
    verification_seconds = original.verification_seconds;
    created_by = actor_id;
  }

  abbrev rollback_from : Plan → String → Target → C Plan
  unfolding create_plan
  rollback_from original actor_id source =
      if source.status == TargetStatus.rolling_back || source.status == TargetStatus.rolled_back
      then give original
      else if source.status != TargetStatus.succeeded
      then fail Error.invalid_transition
      else (do
        release ← repository.release_by_version source.source_version
        active ← repository.active_plan
        none_active active
        if ended original.status
            then create_plan (rollback_input original source release actor_id) (some source)
            else fail Error.invalid_transition)

  -- `CreateRollbackPlan`
  unfoldable pub create_rollback_plan : String → String → String → C Plan
  unfolding create_plan
  create_rollback_plan plan_id target_id actor_id = do
    original ← repository.plan plan_id
    elim (find (λ t. t.id == target_id) original.targets) [
      | none ↦ fail Error.target_not_found
      | some source ↦ rollback_from original actor_id source
    ]
