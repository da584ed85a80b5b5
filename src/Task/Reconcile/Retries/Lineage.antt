-- ===== src/Task/Reconcile/Retries/Lineage.antt =====
-- The attempts of a task: no attempt is made twice.
use mathlib.Core.Path.{subst}
use konzhitai.Prelude.{
  ℕ, suc, ◌<◌, ◌≡◌, ◌≢◌, refl, Bool, true, false, ◌&&◌, not, String, String_discrete, Option, none,
  some, List, [], ◌∷◌, ◌++◌, All, All-append, Result, err, if◌then◌else◌, string_eq, nat_eq, decide,
  lookup, arith,
}
use konzhitai.Clock.{Time}
use konzhitai.Task.Reconcile.{
  RunRow, Database, Error, run_not_found, run_not_retryable, find_row, release_leases,
  append_system_run_event,
}
use konzhitai.Task.Reconcile.Retries.{
  pick, root_of, is_successor, first_successor, retry_row, retry_or_find, checked_retry,
  enabled_retry, retry_run, may_retry, may_retry_alone,
}

-- Two rows have different identifiers, and different attempts if they belong to one chain of retries.
abbrev pub Differ : RunRow → RunRow → Type 0
Differ r q = (r.id ≢ q.id) × (root_of r ≡ root_of q → r.attempt ≢ q.attempt)

abbrev pub Distinct : List RunRow → Type 0
Distinct [] = Unit
Distinct (r ∷ rs) = All (Differ r) rs × Distinct rs

-- A run that is no retry is the first attempt.
abbrev pub Shaped : RunRow → Type 0
Shaped r = (0 < r.attempt) × (r.retry_of ≡ none → r.attempt ≡ 1)

abbrev pub Lineage : List RunRow → Type 0
Lineage rows = Distinct rows × All Shaped rows

abbrev pub Fresh : String → List RunRow → Type 0
Fresh id rows = All (λ r. r.id ≢ id) rows

Distinct-append :
    (rs : List RunRow) (q : RunRow)
    → Distinct rs
    → All (λ r. Differ r q) rs
    → Distinct (rs ++ q ∷ [])
Distinct-append [] q d a = (tt, tt)
Distinct-append (r ∷ rs) q (dr, d) (ar, a) =
    (All-append (Differ r) rs (q ∷ []) dr (ar, tt), Distinct-append rs q d a)

-- Where no successor is found there is none.
pub none_later :
    (root : String) (n : ℕ) (r : RunRow) (rs : List RunRow)
    → first_successor root n (r ∷ rs) ≡ none
    → (first_successor root n rs ≡ none) × (is_successor root n r ≡ false)
none_later root n r rs h = step (first_successor root n rs) (is_successor root n r) h
  where
    step :
        (x : Option RunRow) (b : Bool)
        → (if b then pick r x else x) ≡ none
        → (x ≡ none) × (b ≡ false)
    step x false g = (g, refl)
    step none true g = ground (arith, g)
    step (some q) true g = ground (arith, g)

-- The new row differs from the row of any run of the chain and from any other.
retry_row-Differ :
    (new_id : String) (at : Time) (r q : RunRow)
    → 0 < r.attempt
    → Shaped q
    → q.id ≢ new_id
    → is_successor (root_of r) r.attempt q ≡ false
    → Differ q (retry_row new_id at r)
retry_row-Differ new_id at r q p shaped fresh no_successor =
    (fresh, λ same next. step q.retry_of refl same next)
  where
    step :
        (o : Option String) → q.retry_of ≡ o → root_of q ≡ root_of r → q.attempt ≡ suc r.attempt → ⊥
    step none e same next = omega (arith, shaped.1 e)
    step (some root) e same next = ground (arith, no_successor)

All-retry_row :
    (new_id : String) (at : Time) (r : RunRow) (rs : List RunRow)
    → 0 < r.attempt
    → All Shaped rs
    → Fresh new_id rs
    → first_successor (root_of r) r.attempt rs ≡ none
    → All (λ q. Differ q (retry_row new_id at r)) rs
All-retry_row new_id at r [] p s f h = tt
All-retry_row new_id at r (q ∷ rs) p (sq, s) (fq, f) h =
    let (rest, no_successor) = none_later (root_of r) r.attempt q rs h in
    (retry_row-Differ new_id at r q p sq fq no_successor, All-retry_row new_id at r rs p s f rest)

retry-Lineage :
    (new_id : String) (at : Time) (r : RunRow) (db : Database)
    → Lineage db.runs
    → Shaped r
    → Fresh new_id db.runs
    → (x : Option RunRow) → first_successor (root_of r) r.attempt db.runs ≡ x
    → Lineage (retry_or_find new_id at r db).1.runs
unfolding retry_or_find append_system_run_event
retry-Lineage new_id at r db (d, s) shaped fresh (some q) e = rw (e, retry_or_find) (d, s)
retry-Lineage new_id at r db (d, s) shaped fresh none e =
    rw (e, retry_or_find)
      (
        Distinct-append db.runs (retry_row new_id at r) d
            (All-retry_row new_id at r db.runs shaped.0 s fresh e),
        All-append Shaped db.runs (retry_row new_id at r ∷ []) s
            ((omega arith, λ n. absurd (ground (arith, n))), tt),
      )

find_row-Shaped :
    (id : String) (rs : List RunRow) (r : RunRow)
    → All Shaped rs
    → find_row id rs ≡ some r
    → Shaped r
find_row-Shaped id [] r h e = absurd (ground (arith, e))
find_row-Shaped id (q ∷ rs) r (hq, h) e =
    step (String_discrete q.id id) e (find_row-Shaped id rs r h)
  where
    step :
        (b : Dec (q.id ≡ id))
        → (if decide b then some q else find_row id rs) ≡ some r
        → (find_row id rs ≡ some r → Shaped r)
        → Shaped r
    step (yes _) g ih = let same : q ≡ r = cc in subst Shaped same hq
    step (no _) g ih = ih g

checked-Lineage :
    (automatic : Bool) (new_id : String) (at : Time) (r : RunRow) (db : Database)
    → Lineage db.runs
    → Shaped r
    → Fresh new_id db.runs
    → Lineage (checked_retry automatic new_id at r db).1.runs
unfolding checked_retry
checked-Lineage automatic new_id at r db h shaped fresh =
    step (not (may_retry r)) (automatic && not (may_retry_alone r db.events))
  where
    step :
        (b c : Bool)
        → Lineage
            (if b
              then (err run_not_retryable, db)
              else if c
              then (err run_not_retryable, db)
              else retry_or_find new_id at r (release_leases r.id at db)).1.runs
    step true c = h
    step false true = h
    step false false = retry-Lineage new_id at r (release_leases r.id at db) h shaped fresh _ refl

-- Whatever is asked, a retry keeps the chains of attempts: identifiers and the attempts within a chain stay distinct.
pub retry_run-Lineage :
    (available automatic : Bool) (new_id run_id : String) (at : Time) (db : Database)
    → Lineage db.runs
    → Fresh new_id db.runs
    → Lineage (retry_run available automatic new_id run_id at db).1.runs
unfolding retry_run
retry_run-Lineage false automatic new_id run_id at db h fresh = h
retry_run-Lineage true automatic new_id run_id at db h fresh = step (find_row run_id db.runs) refl
  where
    enabled :
        (x : Option Bool) (r : RunRow)
        → Shaped r
        → Lineage (enabled_retry x automatic new_id at r db).1.runs
    enabled none r shaped = h
    enabled (some false) r shaped = h
    enabled (some true) r shaped = checked-Lineage automatic new_id at r db h shaped fresh

    step :
        (x : Option RunRow)
        → find_row run_id db.runs ≡ x
        → Lineage
            (elim x as (λ _. Result Error String × Database) [
              | none ↦ (err run_not_found, db)
              | some r ↦
                  enabled_retry (lookup r.definition_id db.definitions) automatic new_id at r db
            ]).1.runs
    step none e = h
    step (some r) e =
        enabled (lookup r.definition_id db.definitions) r (find_row-Shaped run_id db.runs r h.1 e)
