-- ===== src/Release/State/Restart.antt =====
-- Every operation leaves files with which `recoverState` can complete; so a commit that was cut off is finished or undone.
use mathlib.Core.Path.{subst}
use konzhitai.Prelude.{
  Bool, true, false, ◌≡◌, ◌≢◌, refl, ◌∙◌, ◌⊎◌, inl, inr, if◌then◌else◌, Option, none, some, List,
  [], ◌∷◌, Result, ok, err, arith,
}
use konzhitai.Prelude.Actions.{◌>>=◌, ◌>>◌, give, fail}
use konzhitai.Release.{
  ReleaseOrigin, ghcr, bootstrap, release_integration, other, StoredRelease, Error, invalid_release,
}
use konzhitai.Release.Checks.{validate_stored_release, valid_origin}
use konzhitai.Release.State.{
  Verdict, done, refused, late, Transaction, File, holds, garbled, something_else, Disk, World,
  recover_state, Fs, write_json_atomic,
}
use konzhitai.Release.State.Triples.{Ended, Triple, bind-Triple, then-Triple, write-Triple}
use konzhitai.Release.State.Atomic.{view, Settled}
use konzhitai.Release.State.{
  load_previous_of, loaded, previous_of, encoded_transaction, commit_state,
}
use konzhitai.Release.State.Atomic.{succeeded_by, OldOrNew, Settled-Shows, commit_state-atomic}
use konzhitai.Release.State.Keeping.{Stable, Keeping, then-Keeping, recover_state-Keeping}
use konzhitai.Release.State.Recovery.{
  ValidPrevious, IsReplayable, all_done, recover_state-completes,
}

-- Recovery can complete.
abbrev pub Ready : Disk → Type 0
Ready d = (d.root ≢ something_else) × IsReplayable d.transaction

Ready-Stable : Stable Ready
Ready-Stable = record {
  rooted = λ d p. (ground arith, p.1);
  previous = λ f d p. p;
  current = λ f d p. p;
  erased = λ d p. (p.0, tt);
}

-- The checks do not read the mark `validated`.
marked_origin :
    (r : StoredRelease) (b : Bool) (o : ReleaseOrigin)
    → valid_origin (record r { validated = b }) o ≡ valid_origin r o
unfolding valid_origin
marked_origin r b ghcr = refl
marked_origin r b bootstrap = refl
marked_origin r b release_integration = refl
marked_origin r b (other _) = refl

marked :
    (r : StoredRelease) (b : Bool) (s : Bool)
    → validate_stored_release (record r { validated = b }) s ≡ validate_stored_release r s
unfolding validate_stored_release
marked r b s = rw (marked_origin r b r.origin)

-- What the previous release of a transaction is read from has passed the checks.
abbrev Checked : Option StoredRelease → Disk → Type 0
Checked p d = Ready d × ValidPrevious p

abbrev Continues : Option (File StoredRelease) → World → Type 0
unfolding loaded
Continues f w = Ended Checked Ready (previous_of (loaded true f w).0 (loaded true f w).1)

loaded-Continues : (f : Option (File StoredRelease)) (w : World) → Ready w.disk → Continues f w
unfolding Continues
loaded-Continues none w p = (p, tt)
loaded-Continues (some garbled) w p = p
loaded-Continues (some (holds r)) w p = step (validate_stored_release r true) refl
  where
    step :
        (b : Bool)
        → validate_stored_release r true ≡ b
        → Ended Checked Ready (
            previous_of
              ((if b then give (record r { validated = true }) else fail invalid_release) w).0
              ((if b then give (record r { validated = true }) else fail invalid_release) w).1)
    step true e = (p, marked r true true ∙ e)
    step false e = p

load_previous_of-Checked :
    (d : Disk) (vs : List Verdict)
    → Ready d
    → Ended Checked Ready (load_previous_of (record { disk = d; verdicts = vs }))
unfolding load_previous_of Continues
load_previous_of-Checked d [] p = p
load_previous_of-Checked d (refused ∷ vs) p = p
load_previous_of-Checked d (late ∷ vs) p = p
load_previous_of-Checked d (done ∷ vs) p =
    loaded-Continues d.current (record { disk = d; verdicts = vs }) p

commit_state-Keeping :
    (r : StoredRelease) → validate_stored_release r true ≡ true → Keeping Ready (commit_state r)
unfolding commit_state
commit_state-Keeping r h =
    then-Keeping Ready recover_state (load_previous_of >>= commit_after)
      (recover_state-Keeping Ready Ready-Stable)
      (bind-Triple {M = Checked} {m = load_previous_of} {f = commit_after}
        (record { run = λ w p. load_previous_of-Checked w.disk w.verdicts p }) after)
  where
    transaction_of : Option StoredRelease → Transaction
    transaction_of p = record { current = r; previous = p }

    commit_after : Option StoredRelease → Fs (Unit {0})
    commit_after p =
        write_json_atomic
          (λ d. record d { transaction = some (holds (encoded_transaction (transaction_of p))) })
        >> recover_state

    written :
        (p : Option StoredRelease)
        → ValidPrevious p
        → IsReplayable (some (holds (encoded_transaction (transaction_of p))))
    written none v = (marked r false true ∙ h, tt)
    written (some q) v = (marked r false true ∙ h, marked q false true ∙ v)

    after : (p : Option StoredRelease) → Triple (Checked p) (commit_after p) (λ _. Ready) Ready
    after p =
        then-Triple {M = λ _. Ready}
          {m = write_json_atomic
            (λ d. record d { transaction = some (holds (encoded_transaction (transaction_of p))) })}
          {k = recover_state}
          (write-Triple
            (λ d. record d { transaction = some (holds (encoded_transaction (transaction_of p))) })
            (λ d q. (q.0.0, written p q.1)) (λ d q. q.0) (λ d q. q))
          (λ _. recover_state-Keeping Ready Ready-Stable)

disk_of :
    {A : Type 0} {P : A → Disk → Type 0} {R : Disk → Type 0} (x : Result Error A × World)
    → ((a : A) (d : Disk) → P a d → R d)
    → Ended P R x
    → R x.1.disk
disk_of (ok a, w) k h = k a w.disk h
disk_of (err e, w) k h = h

-- A commit of a release that passes the checks, whose file operations end in any way, a crash included, and a restart
-- after which recovery meets no failure: recovery succeeds, and the state files are then the old pair or the new one,
-- and no transaction is left.
pub commit_state-restart :
    (r : StoredRelease) (d : Disk) (vs ws : List Verdict)
    → validate_stored_release r true ≡ true
    → Ready d
    → let crashed_disk = (commit_state r (record { disk = d; verdicts = vs })).1.disk in
      let (result, w) = recover_state (record { disk = crashed_disk; verdicts = all_done ws }) in
      (result ≡ ok tt) × (Settled (view d) w.disk ⊎ Settled (succeeded_by r (view d)) w.disk)
commit_state-restart r d vs ws h ready =
    let w : World = record { disk = d; verdicts = vs } in
    let kept : Ready (commit_state r w).1.disk =
      disk_of (commit_state r w) (λ _ d p. p) ((commit_state-Keeping r h).run w ready) in
    let shown : OldOrNew (view d) r (commit_state r w).1.disk =
      disk_of (commit_state r w) (λ _ e p. inr (Settled-Shows (succeeded_by r (view d)) e p))
        (commit_state-atomic r d vs) in
    let (done_all, is) = recover_state-completes (commit_state r w).1.disk ws kept.0 kept.1 in
    let last : World =
      (recover_state (record { disk = (commit_state r w).1.disk; verdicts = all_done ws })).1 in
    (
      done_all,
      elim shown [
        | inl e ↦ inl (subst (λ v. Settled v last.disk) e is)
        | inr e ↦ inr (subst (λ v. Settled v last.disk) e is)
      ],
    )
