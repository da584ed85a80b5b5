-- ===== src/Task/Reconcile/Retries/Replay.antt =====
-- A retry that was granted is granted again with the same run, and nothing is created twice.
use mathlib.Core.Path.{subst}
use konzhitai.Prelude.{
  ℕ, ◌≡◌, refl, sym, ◌∙◌, ap, Bool, true, false, ◌&&◌, not, String, String_discrete, Option, none,
  some, List, [], ◌∷◌, ◌++◌, map, any, Result, ok, err, if◌then◌else◌, ◌==◌, string_eq, nat_eq,
  lookup, arith,
}
use konzhitai.Clock.{Time}
use konzhitai.Task.{RunState}
use konzhitai.Task.Events.{LeaseRow, EventRow, release_row}
use konzhitai.Task.Reconcile.{
  RunRow, Database, Error, run_not_found, run_not_retryable, find_row, release_leases,
  append_system_run_event, system_event,
}
use konzhitai.Task.Reconcile.Retries.{
  root_of, is_successor, first_successor, retry_row, add_retry, retry_or_find, checked_retry,
  enabled_retry, retry_run, may_retry, may_retry_alone, is_cancellation, wants_retry,
}
use konzhitai.Task.Reconcile.Retries.Lineage.{none_later}

-- Releasing leases twice is releasing them once.
release_row-twice :
    (id : String) (at later : Time) (l : LeaseRow)
    → release_row id later (release_row id at l) ≡ release_row id at l
release_row-twice id at later l = ground arith

release_twice :
    (id : String) (at later : Time) (ls : List LeaseRow)
    → map (release_row id later) (map (release_row id at) ls) ≡ map (release_row id at) ls
release_twice id at later [] = refl
release_twice id at later (l ∷ ls) =
    ground (arith, release_row-twice id at later l, release_twice id at later ls)

-- The run that is added is the first successor, where there was none.
first-append :
    (root : String) (n : ℕ) (rs : List RunRow) (q : RunRow)
    → first_successor root n rs ≡ none
    → is_successor root n q ≡ true
    → first_successor root n (rs ++ q ∷ []) ≡ some q
first-append root n [] q h s = ground (arith, s)
first-append root n (r ∷ rs) q h s =
    let (rest, no_successor) = none_later root n r rs h in
    rw no_successor (first-append root n rs q rest s)

find-append :
    (id : String) (rs : List RunRow) (q r : RunRow)
    → find_row id rs ≡ some r
    → find_row id (rs ++ q ∷ []) ≡ some r
find-append id [] q r h = absurd (ground (arith, h))
find-append id (x ∷ rs) q r h = ground (arith, find-append id rs q r)

any-append :
    (p : EventRow → Bool) (es : List EventRow) (e : EventRow)
    → p e ≡ false
    → any p (es ++ e ∷ []) ≡ any p es
any-append p [] e h = ground (arith, h)
any-append p (x ∷ es) e h = ground (arith, any-append p es e h)

module _ (new_id other_id : String) (at later : Time) (r : RunRow) where
  outcome_none :
      (db : Database)
      → first_successor (root_of r) r.attempt db.runs ≡ none
      → retry_or_find new_id at r db ≡ (ok new_id, add_retry new_id at r db)
  unfolding retry_or_find
  outcome_none db e = rw (e, retry_or_find) refl

  outcome_some :
      (db : Database) (q : RunRow)
      → first_successor (root_of r) r.attempt db.runs ≡ some q
      → retry_or_find new_id at r db ≡ (ok q.id, db)
  unfolding retry_or_find
  outcome_some db q e = rw (e, retry_or_find) refl

-- The two checks in front of the outcome `y`.
passed :
    (b c : Bool) (db db' : Database) (x : String) (y : Result Error String × Database)
    → (if b then (err run_not_retryable, db) else if c then (err run_not_retryable, db) else y)
      ≡ (ok x, db')
    → (b ≡ false) × (c ≡ false) × (y ≡ (ok x, db'))
passed true c db db' x y h = absurd (ground (arith, h))
passed false true db db' x y h = absurd (ground (arith, h))
passed false false db db' x y h = (refl, refl, h)

pass :
    (b c : Bool) (u y : Result Error String × Database)
    → b ≡ false
    → c ≡ false
    → (if b then u else if c then u else y) ≡ y
pass b c u y e f = ground arith

-- What a second request meets after the outcome of the first.
record Repeats (other_id : String) (later : Time) (r : RunRow) (db : Database)
    (x : Result Error String × Database) : Type 0 where
  again : retry_or_find other_id later r x.1 ≡ x
  leases : release_leases r.id later x.1 ≡ x.1
  alone : may_retry_alone r x.1.events ≡ may_retry_alone r db.events
  definitions : x.1.definitions ≡ db.definitions
  row : (id : String) (q : RunRow) → find_row id db.runs ≡ some q → find_row id x.1.runs ≡ some q

queued_is_no_cancellation : (◌==◌ {A = String} "queued" "cancel_requested") ≡ false
unfolding String_discrete
queued_is_no_cancellation = refl

module _ (new_id other_id : String) (at later : Time) (r : RunRow) (db : Database) where
  -- The event of the new run says nothing of the old one.
  queued_event :
      (es : List EventRow)
      → may_retry_alone r (es ++ system_event new_id "queued" RunState.queued none at es ∷ [])
        ≡ may_retry_alone r es
  unfolding may_retry_alone
  queued_event es =
      let e = system_event new_id "queued" RunState.queued none at es in
      ground (
        arith,
        queued_is_no_cancellation,
        any-append (wants_retry r.id) es e (ground arith),
        any-append (is_cancellation r.id) es e (ground (arith, queued_is_no_cancellation)),
      )

  abbrev released : Database
  released = release_leases r.id at db

  released_again : release_leases r.id later released ≡ released
  released_again =
      ap (λ ls. record released { leases = ls }) (release_twice r.id at later db.leases)

  found-Repeats :
      (q : RunRow)
      → first_successor (root_of r) r.attempt db.runs ≡ some q
      → Repeats other_id later r db (ok q.id, released)
  found-Repeats q e = record {
    again = outcome_some other_id other_id later later r released q e;
    leases = released_again;
    alone = refl;
    definitions = refl;
    row = λ id q h. h;
  }

  added-Repeats :
      first_successor (root_of r) r.attempt db.runs ≡ none
      → Repeats other_id later r db (ok new_id, add_retry new_id at r released)
  unfolding append_system_run_event may_retry_alone
  added-Repeats e = record {
    again =
        outcome_some other_id other_id later later r (add_retry new_id at r released)
          (retry_row new_id at r)
          (first-append (root_of r) r.attempt db.runs (retry_row new_id at r) e (ground arith));
    leases =
        ap (λ ls. record (add_retry new_id at r released) { leases = ls })
          (release_twice r.id at later db.leases);
    alone = queued_event db.events;
    definitions = refl;
    row = λ id q h. find-append id db.runs (retry_row new_id at r) q h;
  }

  outcome-Repeats :
      (x : Option RunRow)
      → first_successor (root_of r) r.attempt db.runs ≡ x
      → Repeats other_id later r db (retry_or_find new_id at r released)
  outcome-Repeats (some q) e =
      subst (Repeats other_id later r db)
        (sym (outcome_some new_id other_id at later r released q e)) (found-Repeats q e)
  outcome-Repeats none e =
      subst (Repeats other_id later r db) (sym (outcome_none new_id other_id at later r released e))
        (added-Repeats e)

  checked-again :
      (automatic : Bool) (x : String) (db' : Database)
      → checked_retry automatic new_id at r db ≡ (ok x, db')
      → (checked_retry automatic other_id later r db' ≡ (ok x, db'))
        × (db'.definitions ≡ db.definitions)
        × ((id : String) (q : RunRow)
            → find_row id db.runs ≡ some q
            → find_row id db'.runs ≡ some q)
  unfolding checked_retry
  checked-again automatic x db' h =
      let (may, alone, outcome) =
        passed (not (may_retry r)) (automatic && not (may_retry_alone r db.events)) db db' x
          (retry_or_find new_id at r released) h in
      let rep = subst (Repeats other_id later r db) outcome (outcome-Repeats _ refl) in
      let same : (automatic && not (may_retry_alone r db'.events)) ≡ false =
        ap (λ a. automatic && not a) rep.alone ∙ alone in
      (
        pass (not (may_retry r)) (automatic && not (may_retry_alone r db'.events))
              (err run_not_retryable, db')
              (retry_or_find other_id later r (release_leases r.id later db')) may same
            ∙ (ap (retry_or_find other_id later r) rep.leases ∙ rep.again),
        rep.definitions,
        rep.row,
      )

-- A retry that was granted is granted again, by the same call or a later one, with the run of the first grant, and
-- changes nothing.
pub retry_run-replay :
    (automatic : Bool) (new_id other_id run_id x : String) (at later : Time) (db db' : Database)
    → retry_run true automatic new_id run_id at db ≡ (ok x, db')
    → retry_run true automatic other_id run_id later db' ≡ (ok x, db')
unfolding retry_run
retry_run-replay automatic new_id other_id run_id x at later db db' h =
    row (find_row run_id db.runs) refl h
  where
    enabled :
        (r : RunRow) (b : Option Bool)
        → lookup r.definition_id db.definitions ≡ b
        → find_row run_id db.runs ≡ some r
        → enabled_retry b automatic new_id at r db ≡ (ok x, db')
        → retry_run true automatic other_id run_id later db' ≡ (ok x, db')
    enabled r none e f g = absurd (ground (arith, g))
    enabled r (some false) e f g = absurd (ground (arith, g))
    enabled r (some true) e f g =
        let (again, definitions, kept) =
          checked-again new_id other_id at later r db automatic x db' g in
        let allowed : lookup r.definition_id db'.definitions ≡ some true =
          ap (lookup r.definition_id) definitions ∙ e in
        rw (kept run_id r f) (rw allowed again)

    row :
        (o : Option RunRow)
        → find_row run_id db.runs ≡ o
        → (elim o as (λ _. Result Error String × Database) [
          | none ↦ (err run_not_found, db)
          | some r ↦ enabled_retry (lookup r.definition_id db.definitions) automatic new_id at r db
        ])
          ≡ (ok x, db')
        → retry_run true automatic other_id run_id later db' ≡ (ok x, db')
    row none e g = absurd (ground (arith, g))
    row (some r) e g = enabled r (lookup r.definition_id db.definitions) refl e g
