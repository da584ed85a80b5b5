-- ===== src/Release/Tests.antt =====
-- Releases of one bootstrap and one candidate on a small disk, with crashes at chosen places.
use konzhitai.Prelude.{
  ◌≡◌, ◌≢◌, refl, ◌⊎◌, true, false, String, String_discrete, none, some, List, [], ◌∷◌, ok, arith,
}
use konzhitai.Prelude.Int.{pos}
use konzhitai.Release.{Compatibility, StoredRelease, ghcr, bootstrap}
use konzhitai.Release.Checks.{validate_stored_release}
use konzhitai.Release.State.{
  Verdict, done, holds, garbled, directory, History, Disk, commit_state, recover_state,
}
use konzhitai.Release.State.Files.{commit_success, manifest_of}
use konzhitai.Release.State.Atomic.{view, Settled, succeeded_by}
use konzhitai.Release.State.Recovery.{all_done}
use konzhitai.Release.State.Restart.{commit_state-restart}
use konzhitai.Release.State.Records.{commit_success-blocked}
use konzhitai.Release.State.Manifests.{save, succeed, recover, perform_all, perform_all-Kept}

abbrev digest : String
digest = "0123456789abcdef0123456789abcdef0123456789abcdef0123456789abcdef"

abbrev compatible : Compatibility
compatible = record {
  migration_tree_sha256 = digest;
  deployment_contract_sha256 = digest;
  agent_version = "1.2.0";
  agent_manifest_sha256 = digest;
}

abbrev first : StoredRelease
first = record {
  target_id = "bootstrap";
  origin = bootstrap;
  source_sha = "";
  images = record {
    api = "yunling-local-bootstrap/api:0123456789ab";
    scheduler = "yunling-local-bootstrap/scheduler:0123456789ab";
    web = "yunling-local-bootstrap/web:0123456789ab";
    ops = "yunling-local-bootstrap/ops:0123456789ab";
  };
  compatibility = compatible;
  successful_at = record { instant = 7; offset = pos 0 };
  validated = false;
}

abbrev second : StoredRelease
second = record {
  target_id = "42";
  origin = ghcr;
  source_sha = "0123456789abcdef0123456789abcdef01234567";
  images = record {
    api =
        "ghcr.io/o-1/yunling-services@sha256:0123456789abcdef0123456789abcdef0123456789abcdef0123456789abcdef";
    scheduler =
        "ghcr.io/o-1/yunling-services@sha256:0123456789abcdef0123456789abcdef0123456789abcdef0123456789abcdef";
    web =
        "ghcr.io/o-1/yunling-web@sha256:0123456789abcdef0123456789abcdef0123456789abcdef0123456789abcdef";
    ops =
        "ghcr.io/o-1/yunling-ops@sha256:0123456789abcdef0123456789abcdef0123456789abcdef0123456789abcdef";
  };
  compatibility = compatible;
  successful_at = record { instant = 9; offset = pos 0 };
  validated = true;
}

first_valid : validate_stored_release first true ≡ true
unfolding validate_stored_release String_discrete
first_valid = refl

second_valid : validate_stored_release second true ≡ true
unfolding validate_stored_release String_discrete
second_valid = refl

abbrev kept : History
kept = record { manifest = holds second; success = some garbled }

abbrev running : Disk
running = record {
  root = directory;
  current = some (holds first);
  previous = none;
  transaction = none;
  history = ("42", kept) ∷ [];
  audit = [];
}

abbrev three : List Verdict
three = done ∷ done ∷ done ∷ []

commit_state-restart_example :
    let crashed_disk = (commit_state second (record { disk = running; verdicts = three })).1.disk in
    let (result, w) = recover_state (record { disk = crashed_disk; verdicts = all_done [] }) in
    (result ≡ ok tt)
    × (Settled (view running) w.disk ⊎ Settled (succeeded_by second (view running)) w.disk)
commit_state-restart_example =
    commit_state-restart second running three [] second_valid (ground arith, tt)

commit_success-blocked_example :
    let (result, w) = commit_success second (record { disk = running; verdicts = all_done [] }) in
    (result ≢ ok tt) × (w.disk ≡ running)
unfolding String_discrete
commit_success-blocked_example = commit_success-blocked second running (all_done []) kept refl refl

perform_all-Kept_example :
    manifest_of "42" (
      perform_all
        ((save first, all_done []) ∷ (succeed second, three) ∷ (recover, []) ∷ [])
        running)
    ≡ some (holds second)
unfolding String_discrete
perform_all-Kept_example =
    perform_all-Kept ((save first, all_done []) ∷ (succeed second, three) ∷ (recover, []) ∷ []) "42"
      (holds second) running refl
