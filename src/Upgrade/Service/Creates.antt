-- ===== src/Upgrade/Service/Creates.antt =====
-- What a plan that `CreatePlan` of internal/agentupgrade/service.go returns looks like.
use Prim.Native.Nat.{Ordering}
use konzhitai.Prelude.{
  ℕ, suc, ◌≡◌, true, some, List, [], ◌∷◌, length, contains, nat_eq, ok, string_eq,
}
use konzhitai.Prelude.Actions.{Action}
use konzhitai.Prelude.Int.{ℤ}
use konzhitai.Upgrade.Types.{
  Plan, PlanStatus, Target, TargetStatus, target_status_eq, CreatePlanInput, ReleaseInfo,
  ServerInfo, Error,
}
use konzhitai.Upgrade.Version.{compare_stable_versions}
use konzhitai.Upgrade.Service.{Repository, self_upgrade, has_artifact, reachable}
use konzhitai.Upgrade.Service.Criteria.{Offered, Reached, Upgrades, Packaged, Proper}
use konzhitai.Upgrade.Service.Create.{batch_number}

-- The target that stands for a server in a new plan.
pub record IsPlanned (batch_size : ℤ) (release : ReleaseInfo) (index : ℕ) (server : ServerInfo)
    (t : Target) : Type 0 where
  pub for_server : t.server_id ≡ server.id
  pub from_version : t.source_version ≡ server.agent_version
  pub to_version : t.target_version ≡ release.version
  pub waits : t.status ≡ TargetStatus.waiting
  pub batch : t.batch_number ≡ batch_number batch_size index
  pub upgrades : compare_stable_versions server.agent_version release.version ≡ some Ordering.lt
  pub can_be_reached : Reached server
  pub can_upgrade : Upgrades server.capabilities
  pub has_package : Packaged release server

abbrev pub Planned : ℤ → ReleaseInfo → ℕ → List ServerInfo → List Target → Type 0
Planned batch_size release index [] [] = Unit
Planned batch_size release index (v ∷ vs) (t ∷ ts) =
    IsPlanned batch_size release index v t × Planned batch_size release (suc index) vs ts
Planned batch_size release index _ _ = ⊥

record Accepted (release : ReleaseInfo) (server : ServerInfo) : Type 0 where
  upgrades : compare_stable_versions server.agent_version release.version ≡ some Ordering.lt
  can_be_reached : reachable server ≡ true
  can_upgrade : contains server.capabilities self_upgrade ≡ true
  has_package : has_artifact release server.agent_os server.agent_arch ≡ true

module _ (repository : Repository) where
  open repository use {State}

  -- A call of the repository came back with this.
  abbrev pub Answers : {A : Type 0} → Action State Error A → A → Type 0
  Answers m a = (s : State) × (t : State) × (m s ≡ (ok a, t))

  -- What a created plan answers to: the release and the servers are those that the repository gave for the ids of
  -- the input.
  pub record Created (input : CreatePlanInput) (plan : Plan) : Type 0 where
    pub release : ReleaseInfo
    pub servers : List ServerInfo
    pub offered : Offered release
    pub release_answered : Answers (repository.release input.target_release_id) release
    pub servers_answered : Answers (repository.servers input.server_ids) servers
    pub all_found : length servers ≡ length input.server_ids
    pub runs : (plan.status ≡ PlanStatus.running) × (plan.current_batch ≡ 1)
    pub proper : Proper input plan
    pub planned : Planned plan.batch_size release 0 servers plan.targets
