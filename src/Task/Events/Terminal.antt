-- ===== src/Task/Events/Terminal.antt =====
-- A run that is at an end stays there.
use mathlib.Core.Path.{subst}
use mathlib.Core.Option.{some-injective}
use konzhitai.Prelude.{
  sym, ap, ◌∙◌, ◌≡◌, ◌≢◌, refl, ◌⊎◌, inl, inr, Bool, true, some, lookup, lookup-insert_self,
  lookup-insert_ne, String, String_discrete, arith, ok, string_eq,
}
use konzhitai.Task.{RunState, terminal, state_eq}
use konzhitai.Task.Events.Applied.{apply_run_event-Appended}
use konzhitai.Task.Events.{
  RunEvent, RunRow, Database, apply_run_event, commit_event, valid_agent_transition, update_run,
}

terminal-valid :
    (from to : RunState) → terminal from ≡ true → valid_agent_transition from to ≡ true → to ≡ from
unfolding valid_agent_transition
terminal-valid RunState.succeeded to t v = ground arith
terminal-valid RunState.failed to t v = ground arith
terminal-valid RunState.timed_out to t v = ground arith
terminal-valid RunState.cancelled to t v = ground arith
terminal-valid RunState.expired to t v = ground arith
terminal-valid RunState.queued to t v = cc
terminal-valid RunState.scheduling to t v = cc
terminal-valid RunState.assigned to t v = cc
terminal-valid RunState.syncing to t v = cc
terminal-valid RunState.running to t v = cc
terminal-valid RunState.unknown to t v = cc

-- No event that is accepted changes the state of a run that is at an end, nor that of any other run than
-- its own.
pub apply_run_event-terminal :
    (available : Bool) (e : RunEvent) (to : RunState) (db db' : Database) (b : Bool) (id : String)
    (r : RunRow)
    → apply_run_event available e to db ≡ (ok b, db')
    → lookup id db.runs ≡ some r
    → (terminal r.state ≡ true) ⊎ (id ≢ e.run_id)
    → (r' : RunRow) × (lookup id db'.runs ≡ some r') × (r'.state ≡ r.state)
unfolding commit_event
apply_run_event-terminal available e to db db' b id r h found why =
    elim (apply_run_event-Appended available e to db db' b h) [
      | inl (_, same) ↦ (r, rw same found, refl)
      | inr (_, a) ↦ elim (String_discrete id e.run_id) [
        | no other ↦ (
          r,
          rw (a.result, commit_event)
              (lookup-insert_ne id e.run_id (update_run e to a.row) db.runs other ∙ found),
          refl,
        )
        | yes own ↦
            let same : a.row ≡ r =
              some-injective _ _ (sym a.found ∙ ap (λ i. lookup i db.runs) (sym own) ∙ found) in
            (
              update_run e to a.row,
              rw (own, a.result, commit_event)
                  (lookup-insert_self e.run_id (update_run e to a.row) db.runs),
              ended r own a.row same why a.allowed,
            )
      ]
    ]
  where
    ended :
        (r : RunRow)
        → id ≡ e.run_id
        → (q : RunRow) → q ≡ r
        → (terminal r.state ≡ true) ⊎ (id ≢ e.run_id)
        → valid_agent_transition q.state to ≡ true
        → to ≡ r.state
    ended r own q same (inl t) v =
        terminal-valid r.state to t (subst (λ x. valid_agent_transition x.state to ≡ true) same v)
    ended r own q same (inr other) v = absurd (other own)
