-- ===== src/Alert/Tests.antt =====
-- Two failed backups, a day apart, and the success that follows.
use konzhitai.Prelude.{
  ℕ, ◌+◌, ◌-◌, ◌≡◌, refl, true, false, none, String, List, [], ◌∷◌, any, if◌then◌else◌, arith,
  String_discrete, text_ne, ◌≢◌,
}
use konzhitai.Clock.{Time}
use konzhitai.Alert.{Event, Status, critical, raise, resolve_alert, window}
use konzhitai.Alert.Table.{Alert, mergeable, postgres_repository}
use konzhitai.Alert.Table.Counts.{pending}
use konzhitai.Alert.Table.Effects.{Raises, Resolves, raise-resolve_rows}

abbrev backup_failed : Event
backup_failed = record {
  resource_type = "system";
  resource_id = "backup";
  code = "backup_failed";
  severity = critical;
  title = "backup";
  message = "";
}

abbrev failed_at : String → Time → Alert
failed_at id t = record {
  id = id;
  event = backup_failed;
  status = Status.open_alert;
  occurrences = 1;
  first_occurred_at = t;
  last_occurred_at = t;
  acknowledged_by = "";
  acknowledged_at = none;
  resolved_at = none;
}

abbrev two_failures : List Alert
two_failures = failed_at "a1" 1_000_000_000_000 ∷ failed_at "a2" 87_400_000_000_000 ∷ []

-- One of the two stays open.
left_open :
    pending backup_failed
      (resolve_alert
        (postgres_repository true λ rows. "a3")
        170_000_000_000_000
        "system"
        "backup"
        "backup_failed"
        two_failures).1
    ≡ 1
unfolding resolve_alert konzhitai.Prelude.is_blank konzhitai.Alert.Table.resolve String_discrete
left_open = refl

distinct_ids : ◌≢◌ {A = String} "a2" "a1"
unfolding String_discrete
distinct_ids = text_ne "a2" "a1" refl

raise-resolve_rows_example :
    Raises backup_failed 170_000_000_000_000 two_failures
      (raise
        (postgres_repository true λ rows. "a3")
        170_000_000_000_000
        backup_failed
        two_failures).1
    × Resolves backup_failed 170_000_000_000_000 two_failures
        (resolve_alert
          (postgres_repository true λ rows. "a3")
          170_000_000_000_000
          "system"
          "backup"
          "backup_failed"
          two_failures).1
    × (pending backup_failed
          (resolve_alert
            (postgres_repository true λ rows. "a3")
            170_000_000_000_000
            "system"
            "backup"
            "backup_failed"
            two_failures).1
        ≡ pending backup_failed two_failures - 1)
unfolding konzhitai.Alert.valid_event konzhitai.Prelude.is_blank
raise-resolve_rows_example =
    raise-resolve_rows (λ rows. "a3") backup_failed 170_000_000_000_000 two_failures
      ((distinct_ids, tt), (tt, tt)) refl
