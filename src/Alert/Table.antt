-- ===== src/Alert/Table.antt =====
-- internal/alert/postgres.go: the statements of the alert repository on the rows of the table `alerts`. `available`
-- tells whether the database answers, `fresh` is `gen_random_uuid`. A statement that orders rows by a time takes the
-- first listed where times are equal. Times are kept exactly, and the counts stay below the bound of their column.
pub mod Counts
pub mod Effects
use konzhitai.Prelude.{
  ℕ, ◌+◌, String, String_discrete, Bool, true, false, not, ◌&&◌, ◌||◌, Option, none, some, List, [],
  ◌∷◌, ◌++◌, map, any, if◌then◌else◌, ◌==◌, string_eq, Result, ok, err,
}
use konzhitai.Prelude.TextOrder.{str_less}
use konzhitai.Clock.{Time, before}
use konzhitai.Alert.{Event, Status, Error, Repository, alert_not_found, failure}

-- `Alert`; `acknowledged_by` is empty where the column is null.
pub record Alert : Type 0 where
  pub id : String
  pub event : Event
  pub status : Status
  pub occurrences : ℕ
  pub first_occurred_at : Time
  pub last_occurred_at : Time
  pub acknowledged_by : String
  pub acknowledged_at : Option Time
  pub resolved_at : Option Time

abbrev pub is_open : Status → Bool
is_open Status.open_alert = true
is_open _ = false

abbrev pub is_resolved : Status → Bool
is_resolved Status.resolved = true
is_resolved _ = false

-- The alerts of a source and kind.
abbrev pub concerns : String → String → String → Alert → Bool
concerns resource_type resource_id code a =
    a.event.resource_type == resource_type
    && a.event.resource_id == resource_id
    && a.event.code == code

-- `ORDER BY … DESC LIMIT 1` over the rows that a condition selects.
abbrev pub latest : (Alert → Alert → Bool) → (Alert → Bool) → List Alert → Option Alert
latest newer p [] = none
latest newer p (a ∷ rows) = elim (latest newer p rows) [
  | none ↦ if p a then some a else none
  | some b ↦ if p a && not (newer b a) then some a else some b
]

abbrev pub update_row : String → (Alert → Alert) → List Alert → List Alert
update_row id f rows = map (λ a. if a.id == id then f a else a) rows

-- `MergeOrCreate`
abbrev pub mergeable : Event → Time → Alert → Bool
mergeable e since a =
    concerns e.resource_type e.resource_id e.code a
    && is_open a.status
    && not (before a.last_occurred_at since)

abbrev pub merged : Event → Time → Alert → Alert
merged e at a = record a {
  event = record a.event { severity = e.severity; title = e.title; message = e.message };
  occurrences = a.occurrences + 1;
  last_occurred_at = at;
}

abbrev pub new_alert : String → Event → Time → Alert
new_alert id e at = record {
  id = id;
  event = e;
  status = Status.open_alert;
  occurrences = 1;
  first_occurred_at = at;
  last_occurred_at = at;
  acknowledged_by = "";
  acknowledged_at = none;
  resolved_at = none;
}

abbrev later : Alert → Alert → Bool
later a b = before b.last_occurred_at a.last_occurred_at

abbrev merge_into : Option Alert → String → Event → Time → List Alert → List Alert
merge_into (some a) id e at rows = update_row a.id (merged e at) rows
merge_into none id e at rows = rows ++ new_alert id e at ∷ []

unfoldable pub merge_or_create :
    Bool
    → (List Alert → String)
    → Event
    → Time
    → Time
    → List Alert
    → Result Error (Unit {0}) × List Alert
merge_or_create available fresh e at since rows =
    if not available
    then (err (failure "alerts"), rows)
    else (ok tt, merge_into (latest later (mergeable e since) rows) (fresh rows) e at rows)

-- `Acknowledge`
abbrev acknowledged_row : String → Time → Alert → Alert
acknowledged_row user_id at a =
    if is_open a.status
    then record a {
      status = Status.acknowledged;
      acknowledged_by = user_id;
      acknowledged_at = some at;
    }
    else a

unfoldable pub acknowledge :
    Bool → String → String → Time → List Alert → Result Error (Unit {0}) × List Alert
acknowledge available id user_id at rows =
    if not available
    then (err (failure "alerts"), rows)
    else if any (λ a. a.id == id && is_open a.status) rows
    then (ok tt, update_row id (acknowledged_row user_id at) rows)
    else (err alert_not_found, rows)

-- `Resolve`
abbrev pub unresolved : String → String → String → Alert → Bool
unresolved resource_type resource_id code a =
    concerns resource_type resource_id code a && not (is_resolved a.status)

abbrev later_or_greater : Alert → Alert → Bool
later_or_greater a b =
    before b.last_occurred_at a.last_occurred_at
    || not (before a.last_occurred_at b.last_occurred_at) && str_less b.id a.id

abbrev pub resolved_row : Time → Alert → Alert
resolved_row at a = record a { status = Status.resolved; resolved_at = some at }

abbrev resolve_row : Option Alert → Time → List Alert → List Alert
resolve_row none at rows = rows
resolve_row (some a) at rows = update_row a.id (resolved_row at) rows

unfoldable pub resolve :
    Bool → String → String → String → Time → List Alert → Result Error (Unit {0}) × List Alert
resolve available resource_type resource_id code at rows =
    if not available then (err (failure "alerts"), rows) else (
      ok tt,
      resolve_row (latest later_or_greater (unresolved resource_type resource_id code) rows) at
          rows,
    )

-- `PostgresRepository`
abbrev pub postgres_repository : Bool → (List Alert → String) → Repository
postgres_repository available fresh = record {
  State = List Alert;
  merge_or_create = merge_or_create available fresh;
  acknowledge = acknowledge available;
  resolve = resolve available;
}
