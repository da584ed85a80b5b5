-- ===== src/Upgrade/Coordinator/Frames.antt =====
-- What one pass of `Coordinator.Scan` may do to the targets of a plan, whatever the stores answer.
use mathlib.Core.Path.{subst}
use konzhitai.Prelude.{
  ℕ, zero, suc, ◌≡◌, ◌≢◌, refl, sym, ◌∙◌, inl, inr, Bool, true, ◌||◌, String, some, List, [], ◌∷◌,
  arith, ◌==◌, nat_eq, string_eq, Bool-cases,
}
use konzhitai.Clock.{Time}
use konzhitai.Upgrade.Types.{Plan, Target, TargetStatus, target_status_eq}
use konzhitai.Upgrade.Rollback.{
  rollback_targets, settled, Settled, moves_unsettled, uninstalled, rolled_back_at, rolling_back_at,
}
use konzhitai.Upgrade.Coordinator.{get_elem?, set_elem}
use konzhitai.Upgrade.Coordinator.Scan.{Pass}

-- The steps that a scan takes. `may` tells whether the scan may start targets, `cancel` whether the
-- plan is being cancelled.
pub data ScanStep (may cancel : Bool) : TargetStatus → TargetStatus → Type 0 where
  starts : may ≡ true → ScanStep may cancel TargetStatus.waiting TargetStatus.draining
  downloads :
      may || cancel ≡ true → ScanStep may cancel TargetStatus.draining TargetStatus.downloading
  drifts_draining :
      may || cancel ≡ true
      → ScanStep may cancel TargetStatus.draining TargetStatus.manual_intervention
  drifts_downloading : ScanStep may cancel TargetStatus.downloading TargetStatus.manual_intervention
  drifts_verifying : ScanStep may cancel TargetStatus.verifying TargetStatus.manual_intervention
  drifts_installing : ScanStep may cancel TargetStatus.installing TargetStatus.manual_intervention
  finishes : ScanStep may cancel TargetStatus.health_checking TargetStatus.succeeded
  gives_up : ScanStep may cancel TargetStatus.rolling_back TargetStatus.manual_intervention
  undoes : {s : TargetStatus} → (Settled s → ⊥) → ScanStep may cancel s TargetStatus.rolled_back
  rolls_back :
      {s : TargetStatus} → (Settled s → ⊥) → ScanStep may cancel s TargetStatus.rolling_back

pub data Moves (may cancel : Bool) : TargetStatus → TargetStatus → Type 0 where
  stays : {s : TargetStatus} → Moves may cancel s s
  follows :
      {s t u : TargetStatus} → ScanStep may cancel s t → Moves may cancel t u → Moves may cancel s u

module _ (may cancel : Bool) (batch : ℕ) where
  Moves-trans :
      {s t u : TargetStatus} → Moves may cancel s t → Moves may cancel t u → Moves may cancel s u
  Moves-trans stays k = k
  Moves-trans (follows e h) k = follows e (Moves-trans h k)

  -- One target, before and after: it keeps its identity, moves along the steps, and moves only in the batch.
  pub record Framed (t u : Target) : Type 0 where
    pub same_id : u.id ≡ t.id
    pub same_batch : u.batch_number ≡ t.batch_number
    pub elsewhere : t.batch_number ≢ batch → u ≡ t
    pub moves : Moves may cancel t.status u.status

  abbrev pub Frames : List Target → List Target → Type 0
  Frames [] [] = Unit
  Frames (t ∷ ts) (u ∷ us) = Framed t u × Frames ts us
  Frames _ _ = ⊥

  pub Framed-refl : (t : Target) → Framed t t
  Framed-refl t = record { same_id = refl; same_batch = refl; elsewhere = λ _. refl; moves = stays }

  Framed-trans : (t u v : Target) → Framed t u → Framed u v → Framed t v
  Framed-trans t u v h k = record {
    same_id = k.same_id ∙ h.same_id;
    same_batch = k.same_batch ∙ h.same_batch;
    elsewhere = λ ne. k.elsewhere (λ e. ne (sym h.same_batch ∙ e)) ∙ h.elsewhere ne;
    moves = Moves-trans h.moves k.moves;
  }

  pub Frames-refl : (ts : List Target) → Frames ts ts
  Frames-refl [] = tt
  Frames-refl (t ∷ ts) = (Framed-refl t, Frames-refl ts)

  pub Frames-trans : (ts us vs : List Target) → Frames ts us → Frames us vs → Frames ts vs
  Frames-trans [] [] [] h k = tt
  Frames-trans (t ∷ ts) (u ∷ us) (v ∷ vs) h k =
      (Framed-trans t u v h.0 k.0, Frames-trans ts us vs h.1 k.1)
  Frames-trans [] [] (v ∷ vs) h k = absurd k
  Frames-trans [] (u ∷ us) vs h k = absurd h
  Frames-trans (t ∷ ts) [] vs h k = absurd h
  Frames-trans (t ∷ ts) (u ∷ us) [] h k = absurd k

  pub set_elem-Frames :
      (us : List Target) (i : ℕ) (t v : Target)
      → get_elem? us i ≡ some t
      → Framed t v
      → Frames us (set_elem us i v)
  set_elem-Frames [] i t v h f = tt
  set_elem-Frames (u ∷ us) zero t v h f = (subst (λ x. Framed x v) (ground arith) f, Frames-refl us)
  set_elem-Frames (u ∷ us) (suc i) t v h f = (Framed-refl u, set_elem-Frames us i t v h f)

  -- A step of one target of the batch.
  pub step-Framed :
      (t v : Target)
      → v.id ≡ t.id
      → v.batch_number ≡ t.batch_number
      → t.batch_number ≡ batch
      → ScanStep may cancel t.status v.status
      → Framed t v
  step-Framed t v same_id same_batch e h = record {
    same_id = same_id;
    same_batch = same_batch;
    elsewhere = λ ne. absurd (ne e);
    moves = follows h stays;
  }

  pub rollback_targets-Frames :
      {S : Type 0} (new_id : S → String × S) (plan : Plan) (failed_id code : String) (now : Time)
      (ts : List Target) (s : S)
      → Frames ts (rollback_targets new_id plan batch failed_id code now ts s).0
  unfolding rollback_targets
  rollback_targets-Frames new_id plan failed_id code now [] s = tt
  rollback_targets-Frames {S} new_id plan failed_id code now (t ∷ ts) s =
      let ih = rollback_targets-Frames new_id plan failed_id code now ts in
      elim (Bool-cases (t.batch_number == batch)) [
        | inr other ↦ rw other (Framed-refl t, ih s)
        | inl same ↦ rw same (elim (Bool-cases (settled t.status)) [
          | inl still ↦ rw still (Framed-refl t, ih s)
          | inr moves ↦ rw moves (elim (Bool-cases (uninstalled failed_id code t)) [
            | inl fresh ↦ rw fresh (
              step-Framed t (rolled_back_at now t) refl refl (ground arith)
                  (undoes (moves_unsettled t.status moves)),
              ih s,
            )
            | inr started ↦
                let (id, s') = new_id s in
                rw started (
                  step-Framed t (rolling_back_at now id t) refl refl (ground arith)
                      (rolls_back (moves_unsettled t.status moves)),
                  ih s',
                )
          ])
        ])
      ]

  -- What holds of the variables of the pass, from the targets at its start.
  pub record Kept (targets : List Target) (k : Pass) : Type 0 where
    pub started : k.may_start ≡ true → may ≡ true
    pub cancelling : k.plan.cancel_requested ≡ cancel
    pub current : k.plan.current_batch ≡ batch
    pub frames : Frames targets k.plan.targets

  -- A write to the target at hand.
  pub write-Kept :
      (ts : List Target) (k k' : Pass) (i : ℕ) (t v : Target)
      → Kept ts k
      → get_elem? k.plan.targets i ≡ some t
      → Framed t v
      → (k'.may_start ≡ true → may ≡ true)
      → k'.plan.cancel_requested ≡ k.plan.cancel_requested
      → k'.plan.current_batch ≡ k.plan.current_batch
      → k'.plan.targets ≡ set_elem k.plan.targets i v
      → Kept ts k'
  write-Kept ts k k' i t v h at f may_ok c b e = record {
    started = may_ok;
    cancelling = c ∙ h.cancelling;
    current = b ∙ h.current;
    frames =
        Frames-trans ts k.plan.targets k'.plan.targets h.frames
          (subst (Frames k.plan.targets) (sym e) (set_elem-Frames k.plan.targets i t v at f));
  }
