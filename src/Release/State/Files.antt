-- ===== src/Release/State/Files.antt =====
-- internal/release/state.go: the operations of `StateStore`.
use konzhitai.Prelude.{
  Bool, true, false, not, ◌&&◌, ◌||◌, String, Option, none, some, [], ◌∷◌, ◌++◌, if◌then◌else◌,
  ◌==◌, ◌!=◌, string_eq, Result, ok, err, lookup, insert,
}
use konzhitai.Prelude.Int.{pos}
use konzhitai.Prelude.Actions.{◌>>=◌, ◌>>◌, give, fail, guard}
use konzhitai.Release.{
  ZonedTime, Compatibility, ReleaseOrigin, ghcr, bootstrap, release_integration, other,
  ServiceImages, StoredRelease, AuditEvent, Error, invalid_release, release_exists,
  release_not_found, release_not_successful, not_exist, crashed,
}
use konzhitai.Release.Checks.{validate_stored_release, valid_target_id, is_utc_non_zero}
use konzhitai.Release.State.{
  File, holds, garbled, History, Disk, Fs, change, probe, look, encoded, ensure_root,
  load_release_file, recover_state, commit_state,
}

-- `sameReleaseIdentity`: equal but for the time of success and the mark.
abbrev origin_eq : ReleaseOrigin → ReleaseOrigin → Bool
origin_eq ghcr ghcr = true
origin_eq bootstrap bootstrap = true
origin_eq release_integration release_integration = true
origin_eq (other a) (other b) = a == b
origin_eq _ _ = false

unfoldable pub same_release_identity : StoredRelease → StoredRelease → Bool
same_release_identity l r =
    l.target_id == r.target_id
    && origin_eq l.origin r.origin
    && l.source_sha == r.source_sha
    && l.images.api == r.images.api
    && l.images.scheduler == r.images.scheduler
    && l.images.web == r.images.web
    && l.images.ops == r.images.ops
    && l.compatibility.migration_tree_sha256 == r.compatibility.migration_tree_sha256
    && l.compatibility.deployment_contract_sha256 == r.compatibility.deployment_contract_sha256
    && l.compatibility.agent_version == r.compatibility.agent_version
    && l.compatibility.agent_manifest_sha256 == r.compatibility.agent_manifest_sha256

-- `saveHistory`. A rename that fails is told apart by looking for the directory again.
abbrev pub new_history : StoredRelease → History
new_history r = record { manifest = holds (encoded r); success = none }

abbrev pub is_there : {A : Type 0} → Option A → Bool
is_there none = false
is_there (some _) = true

abbrev pub renamed : String → Result Error (Unit {0}) → Fs (Unit {0})
renamed target (ok _) = probe
renamed target (err crashed) = fail crashed
renamed target (err e) = do
  there ← look (λ d. is_there (lookup target d.history))
  fail (if there then release_exists else e)

unfoldable pub rename_to : String → StoredRelease → Fs (Unit {0})
unfolding change
rename_to target r w =
    let (result, w') =
      change (λ d. record d { history = insert target (new_history r) d.history }) w in
    renamed target result w'

unfoldable pub save_history : StoredRelease → Fs (Unit {0})
unfolding ensure_root look probe rename_to
save_history r = do
  ensure_root
  there ← look (λ d. is_there (lookup r.target_id d.history))
  guard there release_exists
  probe
  rename_to r.target_id r

-- The record of success in the directory of a target; a directory that is missing stays missing.
abbrev pub put_success : String → File StoredRelease → Disk → Disk
put_success target file d = elim (lookup target d.history) [
  | none ↦ d
  | some h ↦ record d { history = insert target (record h { success = some file }) d.history }
]

-- `writeSuccess`: the file is created, then written, then synced.
unfoldable pub recorded : StoredRelease → File StoredRelease → Fs (Unit {0})
unfolding same_release_identity
recorded r garbled = fail release_exists
recorded r (holds old) = guard (not (same_release_identity old r)) release_exists

abbrev pub unread : Result Error (Unit {0}) → Fs (Unit {0})
unread (err crashed) = fail crashed
unread (err _) = fail release_exists
unread (ok u) = give tt

unfoldable pub reread : StoredRelease → File StoredRelease → Fs (Unit {0})
unfolding recorded probe
reread r file = do (λ w. let (result, w') = probe w in unread result w'); recorded r file

unfoldable pub new_success : StoredRelease → Fs (Unit {0})
unfolding change probe
new_success r = do
  change (put_success r.target_id garbled)
  change (put_success r.target_id (holds (encoded r)))
  probe
  probe
  probe

unfoldable pub create_success : StoredRelease → Option History → Fs (Unit {0})
unfolding new_success reread probe
create_success r none = do probe; fail not_exist
create_success r (some h) = elim h.success [ none ↦ new_success r | some file ↦ reread r file ]

unfoldable pub write_success : StoredRelease → Fs (Unit {0})
unfolding create_success
write_success r w = create_success r (lookup r.target_id w.disk.history) w

-- `SaveValidated`
abbrev pub savable : ReleaseOrigin → Bool
savable ghcr = true
savable release_integration = true
savable _ = false

abbrev pub zero_time : ZonedTime
zero_time = record { instant = 0; offset = pos 0 }

unfoldable pub save_validated : StoredRelease → Fs (Unit {0})
unfolding validate_stored_release save_history
save_validated r = do
  guard (not r.validated || not (savable r.origin)) invalid_release
  guard (not (validate_stored_release r false)) invalid_release
  save_history (record r { successful_at = zero_time })

-- `CreateBootstrap`
abbrev pub bootstrap_release : ServiceImages → Compatibility → ZonedTime → StoredRelease
bootstrap_release images compatibility at = record {
  target_id = "bootstrap";
  origin = bootstrap;
  source_sha = "";
  images = images;
  compatibility = compatibility;
  successful_at = at;
  validated = true;
}

unfoldable pub create_bootstrap : ServiceImages → Compatibility → ZonedTime → Fs StoredRelease
unfolding validate_stored_release save_history write_success commit_state
create_bootstrap images compatibility at = do
  let r = bootstrap_release images compatibility at
  guard (not (validate_stored_release r true)) invalid_release
  save_history r
  write_success r
  commit_state r
  give r

-- `CommitSuccess`
abbrev pub manifest_of : String → Disk → Option (File StoredRelease)
manifest_of target d = elim (lookup target d.history) [ none ↦ none | some h ↦ some h.manifest ]

abbrev pub success_of : String → Disk → Option (File StoredRelease)
success_of target d = elim (lookup target d.history) [ none ↦ none | some h ↦ h.success ]

unfoldable pub commit_success : StoredRelease → Fs (Unit {0})
unfolding validate_stored_release load_release_file same_release_identity write_success commit_state
commit_success r = do
  guard (not r.validated) invalid_release
  guard (not (validate_stored_release r true)) invalid_release
  validated ← load_release_file (manifest_of r.target_id) false
  guard (not (same_release_identity validated r)) invalid_release
  write_success r
  commit_state r

-- `LoadCurrent`, `LoadPrevious`
unfoldable pub load_current : Fs StoredRelease
unfolding recover_state load_release_file
load_current = do recover_state; load_release_file (λ d. d.current) true

unfoldable pub load_previous : Fs StoredRelease
unfolding recover_state load_release_file
load_previous = do recover_state; load_release_file (λ d. d.previous) true

-- `LoadTarget`
unfoldable pub target_missing : String → Result Error StoredRelease → Fs StoredRelease
unfolding look
target_missing target (ok r) = give r
target_missing target (err not_exist) = do
  there ← look (λ d. is_there (manifest_of target d))
  fail (if there then release_not_successful else release_not_found)
target_missing target (err e) = fail e

unfoldable pub load_success : String → Fs StoredRelease
unfolding load_release_file target_missing
load_success target w =
    let (result, w') = load_release_file (success_of target) true w in
    target_missing target result w'

unfoldable pub load_target : String → Fs StoredRelease
unfolding valid_target_id recover_state load_success
load_target target = do
  guard (not (valid_target_id target)) invalid_release
  recover_state
  load_success target

-- `AppendAudit`: open, write, sync, close.
unfoldable pub append_audit : AuditEvent → Fs (Unit {0})
unfolding valid_target_id is_utc_non_zero ensure_root probe change
append_audit e = do
  guard
      (e.operation != "deploy" && e.operation != "rollback"
        || not (valid_target_id e.target_id)
        || e.status == ""
        || not (is_utc_non_zero e.occurred_at))
      invalid_release
  ensure_root
  probe
  change (λ d. record d { audit = d.audit ++ e ∷ [] })
  probe
  probe
