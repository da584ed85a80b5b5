-- ===== src/Task/Events/Sequence.antt =====
-- The numbers of the events that an agent sends for a run.
use mathlib.Core.Path.{subst}
use konzhitai.Prelude.{
  ℕ, suc, ◌+◌, ◌<◌, ◌≡◌, ◌≢◌, refl, sym, ap, ◌∙◌, ◌⊎◌, inl, inr, Bool, true, false, none, some,
  List, [], ◌∷◌, ◌++◌, length, lookup, lookup-insert_self, String, String_discrete, arith, ok,
  string_eq, nat_eq,
}
use konzhitai.Task.{RunState}
use konzhitai.Task.Usage.{equal_usage_refl, int_eq, same_int_refl}
use konzhitai.Task.Events.Applied.{Appended, apply_run_event-Appended}
use konzhitai.Task.Events.{
  RunEvent, RunRow, EventRow, Database, apply_run_event, commit_event, find_event, same_event,
  next_agent_sequence, sequences, sequence_in, has_sequence, max_of, new_row, update_run,
}

-- 1, 2, 3 and so on, after `k` numbers.
abbrev pub Counts : ℕ → List ℕ → Type 0
Counts k [] = Unit
Counts k (n ∷ ns) = (n ≡ suc k) × Counts (suc k) ns

-- The numbers of each run and token are stored without gap or repetition, in their order.
abbrev pub Numbered : Database → Type 0
Numbered db = (run_id token : String) → Counts 0 (sequences run_id token db.events)

max_of-Counts : (k : ℕ) (ns : List ℕ) → Counts k ns → 0 < length ns → max_of ns ≡ k + length ns
max_of-Counts k [] c l = absurd (ground arith)
max_of-Counts k (n ∷ []) c l = ground arith
max_of-Counts k (n ∷ m ∷ ns) c l = ground (arith, max_of-Counts (suc k) (m ∷ ns) c.1 (omega arith))

next-Counts : (ns : List ℕ) → Counts 0 ns → max_of ns ≡ length ns
next-Counts [] c = refl
next-Counts (n ∷ ns) c = omega (arith, max_of-Counts 0 (n ∷ ns) c (omega arith))

Counts-append : (k : ℕ) (ns : List ℕ) → Counts k ns → Counts k (ns ++ suc (k + length ns) ∷ [])
Counts-append k [] c = (omega arith, tt)
Counts-append k (n ∷ ns) c = (
  c.0,
  subst (λ i. Counts (suc k) (ns ++ suc i ∷ [])) (omega arith) (Counts-append (suc k) ns c.1),
)

sequences-append_other :
    (run_id token : String) (rows : List EventRow) (row : EventRow)
    → sequence_in run_id token row ≡ none
    → sequences run_id token (rows ++ row ∷ []) ≡ sequences run_id token rows
unfolding sequences
sequences-append_other run_id token [] row h = ground arith
sequences-append_other run_id token (x ∷ rows) row h =
    ground (arith, sequences-append_other run_id token rows row h)

sequences-append_own :
    (run_id token : String) (rows : List EventRow) (row : EventRow) (n : ℕ)
    → sequence_in run_id token row ≡ some n
    → sequences run_id token (rows ++ row ∷ []) ≡ sequences run_id token rows ++ n ∷ []
unfolding sequences
sequences-append_own run_id token [] row n h = ground arith
sequences-append_own run_id token (x ∷ rows) row n h =
    ground (arith, sequences-append_own run_id token rows row n h)

-- The row that is appended, in the list of its own run and token, and in any other.
row_own :
    (e : RunEvent) (from to : RunState) (rows : List EventRow)
    → sequence_in e.run_id e.execution_token (new_row e from to rows) ≡ some e.sequence
row_own e from to rows = ground arith

row_other :
    (run_id token : String) (e : RunEvent) (from to : RunState) (rows : List EventRow)
    → (run_id ≢ e.run_id) ⊎ (token ≢ e.execution_token)
    → sequence_in run_id token (new_row e from to rows) ≡ none
row_other run_id token e from to rows (inl ne) = ground arith
row_other run_id token e from to rows (inr ne) = ground arith

Appended-other :
    (run_id token : String) (e : RunEvent) (to : RunState) (db db' : Database)
    → Numbered db
    → Appended e to db db'
    → (run_id ≢ e.run_id) ⊎ (token ≢ e.execution_token)
    → Counts 0 (sequences run_id token db'.events)
unfolding commit_event
Appended-other run_id token e to db db' c a ne =
    subst (Counts 0)
      (sym (
          sequences-append_other run_id token db.events (new_row e a.row.state to db.events)
            (row_other run_id token e a.row.state to db.events ne))
        ∙ sym (ap (λ x. sequences run_id token x.events) a.result))
      (c run_id token)

Appended-own :
    (e : RunEvent) (to : RunState) (db db' : Database)
    → Numbered db
    → Appended e to db db'
    → Counts 0 (sequences e.run_id e.execution_token db'.events)
unfolding commit_event next_agent_sequence
Appended-own e to db db' c a =
    let ns = sequences e.run_id e.execution_token db.events in
    let counts = c e.run_id e.execution_token in
    subst (Counts 0)
      (ap (λ n. ns ++ n ∷ []) (omega (arith, next-Counts ns counts, a.next))
        ∙ sym (
            sequences-append_own e.run_id e.execution_token db.events
              (new_row e a.row.state to db.events) e.sequence (row_own e a.row.state to db.events))
        ∙ sym (ap (λ x. sequences e.run_id e.execution_token x.events) a.result))
      (Counts-append 0 ns counts)

-- Whatever events arrive and in whatever order, the stored numbers of each run and token stay 1, 2, 3 and
-- so on, without a gap and without a repetition.
pub apply_run_event-Numbered :
    (available : Bool) (e : RunEvent) (to : RunState) (db db' : Database) (b : Bool)
    → apply_run_event available e to db ≡ (ok b, db')
    → Numbered db
    → Numbered db'
apply_run_event-Numbered available e to db db' b h c run_id token =
    elim (apply_run_event-Appended available e to db db' b h) [
      | inl (_, same) ↦ rw same (c run_id token)
      | inr (_, a) ↦ elim (String_discrete run_id e.run_id) [
        | no other ↦ Appended-other run_id token e to db db' c a (inl other)
        | yes p ↦ elim (String_discrete token e.execution_token) [
          | no other ↦ Appended-other run_id token e to db db' c a (inr other)
          | yes q ↦ rw (p, q) (Appended-own e to db db' c a)
        ]
      ]
    ]

find-append :
    (e : RunEvent) (rows : List EventRow) (row : EventRow)
    → find_event e rows ≡ none
    → has_sequence e row ≡ true
    → find_event e (rows ++ row ∷ []) ≡ some row
unfolding find_event
find-append e [] row h k = ground arith
find-append e (x ∷ rows) row h k = ground (arith, find-append e rows row)

row-has_sequence :
    (e : RunEvent) (from to : RunState) (rows : List EventRow)
    → has_sequence e (new_row e from to rows) ≡ true
row-has_sequence e from to rows = ground arith

row-same_event :
    (e : RunEvent) (from to : RunState) (rows : List EventRow)
    → same_event e (new_row e from to rows) ≡ true
unfolding same_event
row-same_event e from to rows = ground (arith, same_int_refl e.exit_code, equal_usage_refl e.usage)

replayed :
    (e : RunEvent) (to : RunState) (db : Database) (r : RunRow) (row : EventRow)
    → lookup e.run_id db.runs ≡ some r
    → r.token ≡ e.execution_token
    → find_event e db.events ≡ some row
    → same_event e row ≡ true
    → apply_run_event true e to db ≡ (ok false, db)
unfolding apply_run_event
replayed e to db r row found same seen equal = ground arith

-- An event that was accepted and arrives again is acknowledged and changes nothing.
pub apply_run_event-replay :
    (available : Bool) (e : RunEvent) (to : RunState) (db db' : Database)
    → apply_run_event available e to db ≡ (ok true, db')
    → apply_run_event true e to db' ≡ (ok false, db')
unfolding commit_event
apply_run_event-replay available e to db db' h =
    elim (apply_run_event-Appended available e to db db' true h) [
      | inl (f, _) ↦ absurd (ground arith)
      | inr (_, a) ↦
          let row = new_row e a.row.state to db.events in
          rw a.result (
            replayed e to (commit_event e to a.row db) (update_run e to a.row) row
              (lookup-insert_self e.run_id (update_run e to a.row) db.runs) a.token_matches
              (find-append e db.events row a.fresh (row-has_sequence e a.row.state to db.events))
              (row-same_event e a.row.state to db.events))
    ]
