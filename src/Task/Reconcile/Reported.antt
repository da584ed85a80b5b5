-- ===== src/Task/Reconcile/Reported.antt =====
-- What a report of an agent says of a run, in words of its own, and that `ReconcileRunning` of internal/task/reconcile.go
-- makes just that of the rows.
use mathlib.Core.Path.{subst}
use konzhitai.Prelude.{
  ◌≡◌, ◌≢◌, ◌⊎◌, refl, sym, ◌∙◌, ap, Bool, true, false, not, String, Option, none, some, List, [],
  ◌∷◌, map, All, ok, if◌then◌else◌, ◌==◌, string_eq, inl, inr, arith,
}
use konzhitai.Clock.{Time}
use konzhitai.Task.{RunState}
use konzhitai.Task.Reconcile.{
  RunRow, Database, RunningProcess, RunningReport, open_state, reported, is_running, found,
  vanished, is_candidate, reconcile_running,
}
use konzhitai.Task.Reconcile.Report.{DistinctIds, confirmed, reconcile_running-runs}

-- A run is assigned, in preparation, running or unknown.
pub data OpenState : RunState → Type 0 where
  is_assigned : OpenState RunState.assigned
  is_syncing : OpenState RunState.syncing
  is_started : OpenState RunState.running
  is_unknown : OpenState RunState.unknown

-- It is at the server that reports, and not at its end.
pub record OpenAt (server : String) (r : RunRow) : Type 0 where
  pub there : r.assigned_server_id ≡ some server
  pub open_still : OpenState r.state

-- The last process of a run in the report.
abbrev pub Last : String → RunningProcess → List RunningProcess → Type 0
Last id p [] = ⊥
Last id p (q ∷ qs) = Last id p qs ⊎ ((q ≡ p) × (p.run_id ≡ id) × All (λ x. x.run_id ≢ id) qs)

-- That process runs under the run's token.
abbrev pub Runs : RunningReport → RunRow → Type 0
Runs report r = (p : RunningProcess) × Last r.id p report.processes × (p.execution_token ≡ r.token)

abbrev pub NotOpen : RunningReport → RunRow → Type 0
NotOpen report r = OpenAt report.server_id r → ⊥

-- The row of a run after the report.
pub data Reported (report : RunningReport) (at : Time) (r s : RunRow) : Type 0 where
  elsewhere : NotOpen report r → s ≡ r → Reported report at r s
  runs :
      OpenAt report.server_id r
      → Runs report r
      → s ≡ record r { state = RunState.running; process_confirmed_gone = false; updated_at = at }
      → Reported report at r s
  partial :
      OpenAt report.server_id r
      → (Runs report r → ⊥)
      → report.authoritative ≡ false
      → s ≡ r
      → Reported report at r s
  known_gone :
      OpenAt report.server_id r
      → (Runs report r → ⊥)
      → report.authoritative ≡ true
      → r.process_confirmed_gone ≡ true
      → s ≡ r
      → Reported report at r s
  gone :
      OpenAt report.server_id r
      → (Runs report r → ⊥)
      → report.authoritative ≡ true
      → r.process_confirmed_gone ≡ false
      → s ≡ record r { state = RunState.unknown; process_confirmed_gone = true; updated_at = at }
      → Reported report at r s

abbrev pub EachReported : RunningReport → Time → List RunRow → List RunRow → Type 0
EachReported report at [] [] = Unit
EachReported report at [] (s ∷ ss) = ⊥
EachReported report at (r ∷ rs) [] = ⊥
EachReported report at (r ∷ rs) (s ∷ ss) = Reported report at r s × EachReported report at rs ss

open_state-OpenState : (x : RunState) → open_state x ≡ true → OpenState x
open_state-OpenState RunState.assigned h = OpenState.is_assigned
open_state-OpenState RunState.syncing h = OpenState.is_syncing
open_state-OpenState RunState.running h = OpenState.is_started
open_state-OpenState RunState.unknown h = OpenState.is_unknown
open_state-OpenState x h = absurd (ground (arith, h))

OpenState-open_state : (x : RunState) → OpenState x → open_state x ≡ true
OpenState-open_state _ OpenState.is_assigned = refl
OpenState-open_state _ OpenState.is_syncing = refl
OpenState-open_state _ OpenState.is_started = refl
OpenState-open_state _ OpenState.is_unknown = refl

at_server-some :
    (server : String) (x : Option String)
    → elim x [ none ↦ false | some s ↦ s == server ] ≡ true
    → x ≡ some server
at_server-some server none h = absurd (ground (arith, h))
at_server-some server (some s) h = ap some (ground (arith, h))

candidate-OpenAt : (server : String) (r : RunRow) → is_candidate server r ≡ true → OpenAt server r
candidate-OpenAt server r h = record {
  there = at_server-some server r.assigned_server_id (ground (arith, h));
  open_still = open_state-OpenState r.state (ground (arith, h));
}

OpenAt-candidate : (server : String) (r : RunRow) → OpenAt server r → is_candidate server r ≡ true
OpenAt-candidate server r o = ground (arith, o.there, OpenState-open_state r.state o.open_still)

not_reported :
    (id : String) (ps : List RunningProcess) → reported id ps ≡ none → All (λ x. x.run_id ≢ id) ps
not_reported id [] h = tt
not_reported id (q ∷ qs) h = step (reported id qs) refl (q.run_id == id) refl h (not_reported id qs)
  where
    step :
        (o : Option RunningProcess)
        → reported id qs ≡ o
        → (b : Bool) → (q.run_id == id) ≡ b
        → elim o [ some x ↦ some x | none ↦ if b then some q else none ] ≡ none
        → (reported id qs ≡ none → All (λ x. x.run_id ≢ id) qs)
        → All (λ x. x.run_id ≢ id) (q ∷ qs)
    step (some x) e b f g ih = absurd (ground (arith, g))
    step none e true f g ih = absurd (ground (arith, g))
    step none e false f g ih = (differs f, ih e)
      where
        differs : (q.run_id == id) ≡ false → q.run_id ≢ id
        differs k l = ground (arith, k, l)

reported-Last :
    (id : String) (ps : List RunningProcess) (p : RunningProcess)
    → reported id ps ≡ some p
    → Last id p ps
reported-Last id [] p h = absurd (ground (arith, h))
reported-Last id (q ∷ qs) p h =
    step (reported id qs) refl (q.run_id == id) refl h (reported-Last id qs p)
  where
    same : {x : RunningProcess} → some x ≡ some p → x ≡ p
    same g = ground (arith, g)

    own : (q.run_id == id) ≡ true → q ≡ p → p.run_id ≡ id
    own f g = ap (λ x. x.run_id) (sym g) ∙ ground (arith, f)

    step :
        (o : Option RunningProcess)
        → reported id qs ≡ o
        → (b : Bool) → (q.run_id == id) ≡ b
        → elim o [ some x ↦ some x | none ↦ if b then some q else none ] ≡ some p
        → (reported id qs ≡ some p → Last id p qs)
        → Last id p (q ∷ qs)
    step (some x) e b f g ih = inl (ih (e ∙ g))
    step none e true f g ih = inr (same g, own f (same g), not_reported id qs e)
    step none e false f g ih = absurd (ground (arith, g))

unreported :
    (id : String) (ps : List RunningProcess) → All (λ x. x.run_id ≢ id) ps → reported id ps ≡ none
unreported id [] h = refl
unreported id (q ∷ qs) (h, hs) = ground (arith, h, unreported id qs hs)

Last-reported :
    (id : String) (ps : List RunningProcess) (p : RunningProcess)
    → Last id p ps
    → reported id ps ≡ some p
Last-reported id [] p h = absurd h
Last-reported id (q ∷ qs) p (inl h) = ground (arith, Last-reported id qs p h)
Last-reported id (q ∷ qs) p (inr (e, f, hs)) =
    chosen (unreported id qs hs) (ap (λ x. x.run_id) e ∙ f) ∙ ap some e
  where
    chosen : reported id qs ≡ none → q.run_id ≡ id → reported id (q ∷ qs) ≡ some q
    chosen g k = ground (arith, g, k)

module _ (report : RunningReport) (at : Time) (r : RunRow) where
  running-Runs : is_running (reported r.id report.processes) r.token ≡ true → Runs report r
  running-Runs h = step (reported r.id report.processes) refl h
    where
      step :
          (o : Option RunningProcess)
          → reported r.id report.processes ≡ o
          → is_running o r.token ≡ true
          → Runs report r
      step none e g = absurd (ground (arith, g))
      step (some p) e g = (p, reported-Last r.id report.processes p e, ground (arith, g))

  Runs-running : Runs report r → is_running (reported r.id report.processes) r.token ≡ true
  Runs-running (p, l, e) =
      ap (λ o. is_running o r.token) (Last-reported r.id report.processes p l) ∙ ground (arith, e)

  idle : is_running (reported r.id report.processes) r.token ≡ false → Runs report r → ⊥
  idle h x = clash (Runs-running x)
    where
      clash : is_running (reported r.id report.processes) r.token ≡ true → ⊥
      clash g = ground (arith, g, h)

  closed : is_candidate report.server_id r ≡ false → NotOpen report r
  closed h o = clash (OpenAt-candidate report.server_id r o)
    where
      clash : is_candidate report.server_id r ≡ true → ⊥
      clash g = ground (arith, g, h)

  row-Reported :
      Reported report at r (if is_candidate report.server_id r then confirmed report at r else r)
  unfolding confirmed
  row-Reported =
      step (is_candidate report.server_id r) refl
        (is_running (reported r.id report.processes) r.token) refl report.authoritative refl
        r.process_confirmed_gone refl
    where
      step :
          (a : Bool)
          → is_candidate report.server_id r ≡ a
          → (b : Bool) → is_running (reported r.id report.processes) r.token ≡ b
          → (c : Bool) → report.authoritative ≡ c
          → (d : Bool) → r.process_confirmed_gone ≡ d
          → Reported report at r (
              if a
              then (if b then found at r else if not c then r else if d then r else vanished at r)
              else r)
      step false e b f c g d h = Reported.elsewhere (closed e) refl
      step true e true f c g d h =
          Reported.runs (candidate-OpenAt report.server_id r e) (running-Runs f) refl
      step true e false f false g d h =
          Reported.partial (candidate-OpenAt report.server_id r e) (idle f) g refl
      step true e false f true g true h =
          Reported.known_gone (candidate-OpenAt report.server_id r e) (idle f) g h refl
      step true e false f true g false h =
          Reported.gone (candidate-OpenAt report.server_id r e) (idle f) g h refl

rows-Reported :
    (report : RunningReport) (at : Time) (rs : List RunRow)
    → EachReported report at rs
        (map (λ r. if is_candidate report.server_id r then confirmed report at r else r) rs)
rows-Reported report at [] = tt
rows-Reported report at (r ∷ rs) = (row-Reported report at r, rows-Reported report at rs)

-- A report that is carried out makes of each run at the server that is assigned, in preparation, running or unknown: a
-- running one, if the last process that it reports of the run has the run's token; else, if the report is complete, one
-- whose process is confirmed gone, a run of which that was known already staying as it is. Every other run stays.
pub reconcile_running-Reported :
    (report : RunningReport) (at : Time) (db : Database)
    → DistinctIds db.runs
    → let (result, db') = reconcile_running true report at db in
      (result ≡ ok tt) × EachReported report at db.runs db'.runs
reconcile_running-Reported report at db d =
    let (done, rows) = reconcile_running-runs report at db d in
    (done, subst (EachReported report at db.runs) (sym rows) (rows-Reported report at db.runs))
