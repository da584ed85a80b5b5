-- ===== src/Upgrade/Coordinator/Order.antt =====
-- The stages of progress that an agent reports; an event of failure is handled by `on_failed` of Events.antt.
use mathlib.Core.Path.{subst}
use konzhitai.Prelude.{
  ℕ, ◌<◌, ◌≡◌, ◌≢◌, ◌↔◌, refl, sym, ◌∙◌, ap, true, false, Option, none, some, arith, ◌==◌,
}
use konzhitai.Upgrade.Types.{TargetStatus, target_status_eq, TargetStatus_discrete, UpgradeStage}
use konzhitai.Upgrade.Coordinator.{forward_transition, rank, ranked_below, target_status_for_stage}
use konzhitai.Upgrade.Coordinator.Events.{moves, change_of}

-- The statuses of an upgrade in their order.
pub data Position : TargetStatus → ℕ → Type 0 where
  at_waiting : Position TargetStatus.waiting 0
  at_draining : Position TargetStatus.draining 1
  at_downloading : Position TargetStatus.downloading 2
  at_verifying : Position TargetStatus.verifying 3
  at_installing : Position TargetStatus.installing 4
  at_reconnecting : Position TargetStatus.reconnecting 5
  at_health_checking : Position TargetStatus.health_checking 6
  at_succeeded : Position TargetStatus.succeeded 7

-- Later in that order, or from the way back to its end.
pub data Forward : TargetStatus → TargetStatus → Type 0 where
  rolled : Forward TargetStatus.rolling_back TargetStatus.rolled_back
  onward : {s u : TargetStatus} {i j : ℕ} → Position s i → Position u j → i < j → Forward s u

-- The status that a stage stands for; a failure stands for none, nor does an unknown stage.
pub data Reports : UpgradeStage → TargetStatus → Type 0 where
  accepts : Reports UpgradeStage.accepted TargetStatus.downloading
  downloads : Reports UpgradeStage.downloading TargetStatus.downloading
  verifies : Reports UpgradeStage.verifying TargetStatus.verifying
  installs : Reports UpgradeStage.installing TargetStatus.installing
  reconnects : Reports UpgradeStage.reconnecting TargetStatus.reconnecting
  succeeds : Reports UpgradeStage.succeeded TargetStatus.reconnecting
  goes_back : Reports UpgradeStage.rolling_back TargetStatus.rolling_back
  went_back : Reports UpgradeStage.rolled_back TargetStatus.rolled_back

placed : {s : TargetStatus} (k i : ℕ) → Position s k → some k ≡ some i → Position s i
placed {s} k i p h = subst (Position s) (ground (arith, h)) p

rank-Position : (s : TargetStatus) (i : ℕ) → rank s ≡ some i → Position s i
rank-Position TargetStatus.waiting i h = placed 0 i Position.at_waiting h
rank-Position TargetStatus.draining i h = placed 1 i Position.at_draining h
rank-Position TargetStatus.downloading i h = placed 2 i Position.at_downloading h
rank-Position TargetStatus.verifying i h = placed 3 i Position.at_verifying h
rank-Position TargetStatus.installing i h = placed 4 i Position.at_installing h
rank-Position TargetStatus.reconnecting i h = placed 5 i Position.at_reconnecting h
rank-Position TargetStatus.health_checking i h = placed 6 i Position.at_health_checking h
rank-Position TargetStatus.succeeded i h = placed 7 i Position.at_succeeded h
rank-Position s i h = absurd (ground (arith, h))

Position-rank : (s : TargetStatus) (i : ℕ) → Position s i → rank s ≡ some i
Position-rank _ _ Position.at_waiting = refl
Position-rank _ _ Position.at_draining = refl
Position-rank _ _ Position.at_downloading = refl
Position-rank _ _ Position.at_verifying = refl
Position-rank _ _ Position.at_installing = refl
Position-rank _ _ Position.at_reconnecting = refl
Position-rank _ _ Position.at_health_checking = refl
Position-rank _ _ Position.at_succeeded = refl

ranked_below-Forward : (s u : TargetStatus) → ranked_below (rank s) (rank u) ≡ true → Forward s u
ranked_below-Forward s u h = go (rank s) (rank u) refl refl h
  where
    go : (x y : Option ℕ) → rank s ≡ x → rank u ≡ y → ranked_below x y ≡ true → Forward s u
    go none y e f h = cc
    go (some i) none e f h = cc
    go (some i) (some j) e f h =
        Forward.onward (rank-Position s i e) (rank-Position u j f) (ground arith)

forward_transition-Forward :
    (s u : TargetStatus) → (s == u) ≡ false → forward_transition s u ≡ true → Forward s u
unfolding forward_transition
forward_transition-Forward s u ne h = elim (TargetStatus_discrete s TargetStatus.rolling_back) [
  | no other ↦ ranked_below-Forward s u (ground arith)
  | yes e ↦ elim (TargetStatus_discrete u TargetStatus.rolled_back) [
    | no other ↦ ranked_below-Forward s u (ground arith)
    | yes f ↦ rw (e, f) Forward.rolled
  ]
]

reported :
    {stage : UpgradeStage} (v u : TargetStatus)
    → Reports stage v
    → some v ≡ some u
    → Reports stage u
reported {stage} v u r h = subst (Reports stage) (ground (arith, h)) r

target_status-Reports :
    (stage : UpgradeStage) (u : TargetStatus)
    → target_status_for_stage stage ≡ some u
    → Reports stage u
target_status-Reports UpgradeStage.accepted u h =
    reported TargetStatus.downloading u Reports.accepts h
target_status-Reports UpgradeStage.downloading u h =
    reported TargetStatus.downloading u Reports.downloads h
target_status-Reports UpgradeStage.verifying u h =
    reported TargetStatus.verifying u Reports.verifies h
target_status-Reports UpgradeStage.installing u h =
    reported TargetStatus.installing u Reports.installs h
target_status-Reports UpgradeStage.reconnecting u h =
    reported TargetStatus.reconnecting u Reports.reconnects h
target_status-Reports UpgradeStage.succeeded u h =
    reported TargetStatus.reconnecting u Reports.succeeds h
target_status-Reports UpgradeStage.rolling_back u h =
    reported TargetStatus.rolling_back u Reports.goes_back h
target_status-Reports UpgradeStage.rolled_back u h =
    reported TargetStatus.rolled_back u Reports.went_back h
target_status-Reports stage u h = absurd (ground (arith, h))

Reports-target_status :
    (stage : UpgradeStage) (u : TargetStatus)
    → Reports stage u
    → target_status_for_stage stage ≡ some u
Reports-target_status _ _ Reports.accepts = refl
Reports-target_status _ _ Reports.downloads = refl
Reports-target_status _ _ Reports.verifies = refl
Reports-target_status _ _ Reports.installs = refl
Reports-target_status _ _ Reports.reconnects = refl
Reports-target_status _ _ Reports.succeeds = refl
Reports-target_status _ _ Reports.goes_back = refl
Reports-target_status _ _ Reports.went_back = refl

moved :
    (s u : TargetStatus) (stage : UpgradeStage)
    → change_of s stage ≡ moves u
    → ((s == u) ≡ false)
      × (forward_transition s u ≡ true)
      × (target_status_for_stage stage ≡ some u)
unfolding change_of
moved s u stage h = ground arith

onward_move :
    (s u : TargetStatus) (stage : UpgradeStage) (i j : ℕ)
    → rank s ≡ some i
    → rank u ≡ some j
    → i < j
    → target_status_for_stage stage ≡ some u
    → change_of s stage ≡ moves u
unfolding change_of forward_transition
onward_move s u stage i j e f l r = step (differs s u e f l) (on_the_way s e)
  where
    differs : (s u : TargetStatus) → rank s ≡ some i → rank u ≡ some j → i < j → s ≢ u
    differs s u e f l same = clash (sym e ∙ (ap rank same ∙ f))
      where
        clash : some i ≡ some j → ⊥
        clash g = ground (arith, g, l)

    on_the_way : (s : TargetStatus) → rank s ≡ some i → s ≢ TargetStatus.rolling_back
    on_the_way s e back = clash (sym e ∙ ap rank back)
      where
        clash : some i ≡ none → ⊥
        clash g = cc

    step : s ≢ u → s ≢ TargetStatus.rolling_back → change_of s stage ≡ moves u
    step ne no_back = ground (arith, ne, no_back, e, f, l, r)

way_back :
    (stage : UpgradeStage)
    → target_status_for_stage stage ≡ some TargetStatus.rolled_back
    → change_of TargetStatus.rolling_back stage ≡ moves TargetStatus.rolled_back
unfolding change_of forward_transition TargetStatus_discrete
way_back UpgradeStage.rolled_back h = refl
way_back stage h = absurd (ground (arith, h))

Forward-moves :
    (s u : TargetStatus) (stage : UpgradeStage)
    → Reports stage u
    → Forward s u
    → change_of s stage ≡ moves u
Forward-moves _ _ stage r (Forward.onward {s} {u} {i} {j} p q l) =
    onward_move s u stage i j (Position-rank s i p) (Position-rank u j q) l
      (Reports-target_status stage u r)
Forward-moves _ _ stage r Forward.rolled =
    way_back stage (Reports-target_status stage TargetStatus.rolled_back r)

pub change_of-Forward :
    (s u : TargetStatus) (stage : UpgradeStage)
    → (change_of s stage ≡ moves u) ↔ (Reports stage u × Forward s u)
change_of-Forward s u stage = (
  λ h.
      let (ne, on, r) = moved s u stage h in
      (target_status-Reports stage u r, forward_transition-Forward s u ne on),
  λ (r, f). Forward-moves s u stage r f,
)
