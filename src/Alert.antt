-- ===== src/Alert.antt =====
-- internal/alert/service.go: the checks in front of the alert repository.
pub mod Table
mod Tests
use konzhitai.Prelude.{
  ◌-◌, Bool, true, false, not, ◌&&◌, ◌||◌, String, Result, err, is_blank, if◌then◌else◌,
}
use konzhitai.Clock.{Time}

-- A severity is a text; `other` is any that the program does not name.
pub data Severity : Type 0 where
  info warning critical : Severity
  other : String → Severity

pub data Status : Type 0 where
  open_alert acknowledged resolved : Status

pub record Event : Type 0 where
  pub resource_type : String
  pub resource_id : String
  pub code : String
  pub severity : Severity
  pub title : String
  pub message : String

abbrev valid_severity : Severity → Bool
valid_severity (other _) = false
valid_severity _ = true

unfoldable pub valid_event : Event → Bool
valid_event e =
    not (is_blank e.resource_type)
    && not (is_blank e.resource_id)
    && not (is_blank e.code)
    && not (is_blank e.title)
    && valid_severity e.severity

pub data Error : Type 0 where
  invalid_event alert_not_found : Error
  failure : String → Error

-- `Repository`, over the state of what it stores.
pub record Repository : Type 1 where
  pub State : Type 0
  pub merge_or_create : Event → Time → Time → State → Result Error (Unit {0}) × State
  pub acknowledge : String → String → Time → State → Result Error (Unit {0}) × State
  pub resolve : String → String → String → Time → State → Result Error (Unit {0}) × State

-- The window of `NewService`, five minutes.
abbrev pub window : Time
window = 300_000_000_000

module _ (repository : Repository) where
  open repository use {State, merge_or_create, acknowledge, resolve}

  unfoldable pub raise : Time → Event → State → Result Error (Unit {0}) × State
  raise now event s =
      if not (valid_event event)
      then (err invalid_event, s)
      else merge_or_create event now (now - window) s

  unfoldable pub acknowledge_alert :
      Time → String → String → State → Result Error (Unit {0}) × State
  acknowledge_alert now id user_id s =
      if is_blank id || is_blank user_id
      then (err invalid_event, s)
      else acknowledge id user_id now s

  unfoldable pub resolve_alert :
      Time → String → String → String → State → Result Error (Unit {0}) × State
  resolve_alert now resource_type resource_id code s =
      if is_blank resource_type || is_blank resource_id || is_blank code
      then (err invalid_event, s)
      else resolve resource_type resource_id code now s
