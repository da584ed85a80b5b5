-- ===== src/Release/State.antt =====
-- internal/release/state.go: the files under the root directory, and the calls on them, each of which may fail.
pub mod Files
pub mod Triples
pub mod Keeping
pub mod Atomic
pub mod Recovery
pub mod Restart
pub mod Records
pub mod Manifests
use mathlib.Core.Path.{◌≡◌}
use konzhitai.Prelude.{
  ℕ, Bool, true, false, not, ◌&&◌, ◌||◌, String, String_discrete, Option, none, some, List, [], ◌∷◌,
  ◌++◌, if◌then◌else◌, ◌==◌, ◌!=◌, string_eq, Result, ok, err, Map, lookup, insert, decide, codes,
}
use konzhitai.Prelude.Int.{ℤ, pos}
use konzhitai.Prelude.Actions.{Action, ◌>>=◌, ◌>>◌, give, fail, when, guard}
use konzhitai.Task.Usage.{int_eq}
use konzhitai.Release.{
  ZonedTime, Compatibility, ReleaseOrigin, ghcr, bootstrap, release_integration, ServiceImages,
  StoredRelease, AuditEvent, Error, invalid_release, release_exists, release_not_found,
  release_not_successful, not_exist, corrupt, io_failure, crashed, error_eq,
}
use konzhitai.Release.Checks.{validate_stored_release, valid_target_id, is_utc_non_zero}

-- `stateTransaction`
pub record Transaction : Type 0 where
  pub current : StoredRelease
  pub previous : Option StoredRelease

-- What a file holds: a value that parses, or text that does not.
pub data File (A : Type 0) : Type 0 where
  holds : A → File A
  garbled : File A

-- The directory of a target: `release-manifest.json` and `successful.json`.
pub record History : Type 0 where
  pub manifest : File StoredRelease
  pub success : Option (File StoredRelease)

-- The root path.
pub data Root : Type 0 where
  missing directory something_else : Root

-- The files under the root. `history` has the directories of the targets.
pub record Disk : Type 0 where
  pub root : Root
  pub current : Option (File StoredRelease)
  pub previous : Option (File StoredRelease)
  pub transaction : Option (File Transaction)
  pub history : Map History
  pub audit : List AuditEvent

-- How a file operation ends: it is done; it fails and changes nothing; it fails although the change is made.
pub data Verdict : Type 0 where
  done refused late : Verdict

-- The files, and how the operations to come will end. Where no verdict is left the process has crashed.
pub record World : Type 0 where
  pub disk : Disk
  pub verdicts : List Verdict

abbrev pub Fs : Type 0 → Type 0
Fs A = Action World Error A

-- An operation that makes a change.
abbrev ended : (Disk → Disk) → Disk → List Verdict → Result Error (Unit {0}) × World
ended f d [] = (err crashed, record { disk = d; verdicts = [] })
ended f d (done ∷ vs) = (ok tt, record { disk = f d; verdicts = vs })
ended f d (refused ∷ vs) = (err io_failure, record { disk = d; verdicts = vs })
ended f d (late ∷ vs) = (err io_failure, record { disk = f d; verdicts = vs })

unfoldable pub change : (Disk → Disk) → Fs (Unit {0})
change f w = ended f w.disk w.verdicts

-- An operation that changes nothing the program reads: opening, reading, syncing, closing, temporary files.
unfoldable pub probe : Fs (Unit {0})
unfolding change
probe = change (λ d. d)

unfoldable pub look : {A : Type 0} → (Disk → A) → Fs A
unfolding probe
look f = do probe; λ w. (ok (f w.disk), w)

-- What `json.Marshal` writes: the field `validated` is not exported.
abbrev pub encoded : StoredRelease → StoredRelease
encoded r = record r { validated = false }

abbrev pub encoded_transaction : Transaction → Transaction
encoded_transaction t = record {
  current = encoded t.current;
  previous = elim t.previous [ none ↦ none | some r ↦ some (encoded r) ];
}

-- `writeJSONAtomic`: a temporary file, its rename, the sync of the directory.
unfoldable pub write_json_atomic : (Disk → Disk) → Fs (Unit {0})
unfolding change probe
write_json_atomic f = do probe; change f; probe

-- `ensureRoot`, for a store whose root path is not empty.
abbrev pub with_root : Root → Fs (Unit {0})
unfolding change
with_root missing = change (λ d. record d { root = directory })
with_root directory = give tt
with_root something_else = fail invalid_release

unfoldable pub ensure_root : Fs (Unit {0})
unfolding look with_root
ensure_root = do root ← look (λ d. d.root); with_root root

-- `loadReleaseFile`
abbrev pub checked : Bool → StoredRelease → Fs StoredRelease
unfolding validate_stored_release
checked require_success r =
    if validate_stored_release r require_success
    then give (record r { validated = true })
    else fail invalid_release

abbrev pub loaded : Bool → Option (File StoredRelease) → Fs StoredRelease
unfolding checked
loaded require_success none = fail not_exist
loaded require_success (some garbled) = fail corrupt
loaded require_success (some (holds r)) = checked require_success r

unfoldable pub load_release_file : (Disk → Option (File StoredRelease)) → Bool → Fs StoredRelease
unfolding look loaded
load_release_file file require_success = do f ← look file; loaded require_success f

-- `recoverState`
abbrev pub restore_previous : Option StoredRelease → Fs (Unit {0})
unfolding change write_json_atomic validate_stored_release
restore_previous none = change (λ d. record d { previous = none })
restore_previous (some r) = do
  guard (not (validate_stored_release r true)) invalid_release
  write_json_atomic (λ d. record d { previous = some (holds (encoded r)) })

abbrev pub replay : Option (File Transaction) → Fs (Unit {0})
unfolding change probe write_json_atomic restore_previous validate_stored_release
replay none = give tt
replay (some garbled) = fail corrupt
replay (some (holds t)) = do
  guard (not (validate_stored_release t.current true)) invalid_release
  restore_previous t.previous
  write_json_atomic (λ d. record d { current = some (holds (encoded t.current)) })
  change (λ d. record d { transaction = none })
  probe

unfoldable pub recover_state : Fs (Unit {0})
unfolding ensure_root look replay
recover_state = do ensure_root; t ← look (λ d. d.transaction); replay t

-- `commitState`
abbrev pub previous_of : Result Error StoredRelease → Fs (Option StoredRelease)
previous_of (ok r) = give (some r)
previous_of (err not_exist) = give none
previous_of (err e) = fail e

abbrev pub load_previous_of : Fs (Option StoredRelease)
unfolding load_release_file
load_previous_of w = let (r, w') = load_release_file (λ d. d.current) true w in previous_of r w'

unfoldable pub commit_state : StoredRelease → Fs (Unit {0})
unfolding recover_state load_previous_of write_json_atomic
commit_state release = do
  recover_state
  previous ← load_previous_of
  let t : Transaction = record { current = release; previous = previous }
  write_json_atomic (λ d. record d { transaction = some (holds (encoded_transaction t)) })
  recover_state
