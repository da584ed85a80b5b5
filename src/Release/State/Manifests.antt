-- ===== src/Release/State/Manifests.antt =====
-- A manifest that was saved for a target stays, whatever `StateStore` is asked to do afterwards.
use konzhitai.Prelude.{
  Bool, true, false, not, ◌||◌, String, String_discrete, ◌≡◌, refl, Option, none, some, List, [],
  ◌∷◌, ◌++◌, Result, ok, err, if◌then◌else◌, lookup, insert, lookup-insert_ne, lookup-insert_self,
  arith,
}
use konzhitai.Prelude.Actions.{◌>>=◌, ◌>>◌, give, fail, guard}
use konzhitai.Release.{
  ServiceImages, Compatibility, ZonedTime, StoredRelease, Error, invalid_release, release_exists,
  not_exist, crashed, AuditEvent, release_not_found, release_not_successful,
}
use konzhitai.Release.Checks.{validate_stored_release, valid_target_id}
use konzhitai.Release.State.{
  Verdict, File, holds, garbled, History, Disk, World, Fs, change, probe, look, encoded,
  ensure_root, with_root, load_release_file, recover_state, commit_state,
}
use konzhitai.Release.State.Files.{
  same_release_identity, save_history, is_there, rename_to, renamed, new_history, put_success,
  reread, recorded, unread, new_success, create_success, write_success, commit_success, manifest_of,
  bootstrap_release, load_current, load_previous, load_target, load_success, target_missing,
  success_of, append_audit, save_validated, create_bootstrap, savable, zero_time,
}
use konzhitai.Release.State.Keeping.{
  Stable, Keeping, change-Keeping, guard-Keeping, then-Keeping, look-Keeping, root-Keeping,
  recover_state-Keeping, load-Keeping, commit_state-keeps,
}
use konzhitai.Release.State.Triples.{
  Ended, Triple, change-Triple, give-Triple, fail-Triple, bind-Triple, then-Triple, guard-Triple,
  probe-Triple, look-Triple,
}

-- The calls of `StateStore`.
pub data Call : Type 0 where
  read_current read_previous : Call
  read_target : String → Call
  audit : AuditEvent → Call
  save : StoredRelease → Call
  start : ServiceImages → Compatibility → ZonedTime → Call
  succeed : StoredRelease → Call
  recover : Call

abbrev nothing : {A : Type 0} → Fs A → Fs (Unit {0})
nothing m = m >> give tt

unfoldable pub perform : Call → Fs (Unit {0})
unfolding save_validated create_bootstrap commit_success recover_state load_current load_previous
    load_target append_audit
perform read_current = nothing load_current
perform read_previous = nothing load_previous
perform (read_target t) = nothing (load_target t)
perform (audit e) = append_audit e
perform (save r) = save_validated r
perform (start images compatibility at) = nothing (create_bootstrap images compatibility at)
perform (succeed r) = commit_success r
perform recover = recover_state

-- Calls, each with the way in which its file operations end.
abbrev pub perform_all : List (Call × List Verdict) → Disk → Disk
unfolding perform
perform_all [] d = d
perform_all ((c, vs) ∷ cs) d =
    perform_all cs (perform c (record { disk = d; verdicts = vs })).1.disk

-- The manifest that is kept for a target.
module _ (t : String) (m : File StoredRelease) where
  abbrev pub Kept : Disk → Type 0
  Kept d = manifest_of t d ≡ some m

  abbrev Absent : String → Disk → Type 0
  Absent target d = Kept d × (lookup target d.history ≡ none)

  Kept-insert :
      (target : String) (r : StoredRelease) (d : Disk)
      → Absent target d
      → Kept (record d { history = insert target (new_history r) d.history })
  Kept-insert target r d h = ground (arith, lookup-insert_ne t target (new_history r) d.history)

  Kept-success :
      (target : String) (f : File StoredRelease) (d : Disk) → Kept d → Kept (put_success target f d)
  Kept-success target f d h = step (lookup target d.history) refl
    where
      step :
          (x : Option History)
          → lookup target d.history ≡ x
          → Kept (elim x [
            | none ↦ d
            | some g ↦ record d {
              history = insert target (record g { success = some f }) d.history;
            }
          ])
      step none e = h
      step (some g) e = elim (String_discrete t target) [
        | yes same ↦
            ground (arith, lookup-insert_self target (record g { success = some f }) d.history)
        | no other ↦
            ground (arith, lookup-insert_ne t target (record g { success = some f }) d.history)
      ]

  Kept-Stable : Stable Kept
  Kept-Stable = record {
    rooted = λ d p. p;
    previous = λ f d p. p;
    current = λ f d p. p;
    erased = λ d p. p;
  }

  change_success-Keeping :
      (target : String) (f : File StoredRelease) → Keeping Kept (change (put_success target f))
  change_success-Keeping target f =
      change-Keeping Kept (put_success target f) (Kept-success target f)

  probe-Keeping : Keeping Kept probe
  probe-Keeping = probe-Triple (λ d p. p) (λ d p. p)

  reread-Keeping : (r : StoredRelease) (f : File StoredRelease) → Keeping Kept (reread r f)
  unfolding reread
  reread-Keeping r f =
      then-Keeping Kept (λ w. let (result, w') = probe w in unread result w') (recorded r f)
        (record { run = λ w p. read (probe w) (probe-Keeping.run w p) }) (compared f)
    where
      read :
          (x : Result Error (Unit {0}) × World)
          → Ended (λ _. Kept) Kept x
          → Ended (λ _. Kept) Kept (unread x.0 x.1)
      read (ok a, w) h = h
      read (err e, w) h = ground arith

      compared : (g : File StoredRelease) → Keeping Kept (recorded r g)
      compared garbled = fail-Triple release_exists (λ d p. p)
      compared (holds old) = guard-Keeping Kept (not (same_release_identity old r)) release_exists

  new_success-Keeping : (r : StoredRelease) → Keeping Kept (new_success r)
  unfolding new_success
  new_success-Keeping r =
      let start : Fs (Unit {0}) = change (put_success r.target_id garbled) in
      let write : Fs (Unit {0}) = change (put_success r.target_id (holds (encoded r))) in
      then-Keeping Kept start (write >> (probe >> (probe >> probe)))
        (change_success-Keeping r.target_id garbled)
        (then-Keeping Kept write (probe >> (probe >> probe))
          (change_success-Keeping r.target_id (holds (encoded r)))
          (then-Keeping Kept probe (probe >> probe) probe-Keeping
            (then-Keeping Kept probe probe probe-Keeping probe-Keeping)))

  create-Keeping : (r : StoredRelease) (h : Option History) → Keeping Kept (create_success r h)
  unfolding create_success
  create-Keeping r none =
      then-Keeping Kept probe (fail not_exist) probe-Keeping (fail-Triple not_exist (λ d p. p))
  create-Keeping r (some h) = step h.success
    where
      step :
          (x : Option (File StoredRelease))
          → Keeping Kept
              (elim x as (λ _. Fs (Unit {0})) [ none ↦ new_success r | some file ↦ reread r file ])
      step none = new_success-Keeping r
      step (some f) = reread-Keeping r f

  write_success-Keeping : (r : StoredRelease) → Keeping Kept (write_success r)
  unfolding write_success
  write_success-Keeping r = record {
    run = λ w p. (create-Keeping r (lookup r.target_id w.disk.history)).run w p;
  }

  rename-Keeping :
      (r : StoredRelease) → Triple (Absent r.target_id) (rename_to r.target_id r) (λ _. Kept) Kept
  unfolding rename_to
  rename-Keeping r = record {
    run = λ w p. after (change put w) (
        (change-Triple put (Kept-insert r.target_id r) (λ d q. q.0) (Kept-insert r.target_id r)).run
          w p);
  }
    where
      put : Disk → Disk
      put d = record d { history = insert r.target_id (new_history r) d.history }

      there : Disk → Bool
      there d = is_there (lookup r.target_id d.history)

      named :
          (e : Error)
          → Keeping Kept (look there >>= λ b. fail {A = Unit {0}} (if b then release_exists else e))
      named e =
          look-Keeping Kept there (λ b. fail {A = Unit {0}} (if b then release_exists else e))
            (λ b. fail-Triple (if b then release_exists else e) (λ d p. p))

      after :
          (x : Result Error (Unit {0}) × World)
          → Ended (λ _. Kept) Kept x
          → Ended (λ _. Kept) Kept (renamed r.target_id x.0 x.1)
      after (ok a, w) h = probe-Keeping.run w h
      after (err crashed, w) h = h
      after (err e, w) h = (named e).run w h

  save_history-Keeping : (r : StoredRelease) → Keeping Kept (save_history r)
  unfolding save_history ensure_root
  save_history-Keeping r =
      then-Keeping Kept ensure_root
        (look there >>= λ b. guard b release_exists >> (probe >> rename_to r.target_id r))
        (look-Keeping Kept (λ d. d.root) with_root (root-Keeping Kept Kept-Stable))
        (bind-Triple {M = λ b d. Kept d × (is_there (lookup r.target_id d.history) ≡ b)}
          {m = look there} {f = λ b. guard b release_exists >> (probe >> rename_to r.target_id r)}
          (look-Triple there (λ d p. (p, refl)) (λ d p. p))
          (λ b.
            then-Triple {M = λ _. Absent r.target_id} {m = guard b release_exists}
              {k = probe >> rename_to r.target_id r}
              (guard-Triple b release_exists (λ e d p. (p.0, ground arith)) (λ d p. p.0))
              (λ _.
                then-Triple {M = λ _. Absent r.target_id} {m = probe} {k = rename_to r.target_id r}
                  (probe-Triple (λ d p. p) (λ d p. p.0)) (λ _. rename-Keeping r))))
    where
      there : Disk → Bool
      there d = is_there (lookup r.target_id d.history)

  checked-Keeping :
      (b : Bool) (m : Fs (Unit {0})) → Keeping Kept m → Keeping Kept (guard b invalid_release >> m)
  checked-Keeping b m h =
      then-Keeping Kept (guard b invalid_release) m (guard-Keeping Kept b invalid_release) h

  state-Keeping : (r : StoredRelease) → Keeping Kept (commit_state r)
  state-Keeping r = commit_state-keeps Kept Kept-Stable (λ f d p. p) r

  current-Keeping : Keeping Kept load_current
  unfolding load_current
  current-Keeping =
      then-Keeping Kept recover_state (load_release_file (λ d. d.current) true)
        (recover_state-Keeping Kept Kept-Stable)
        (load-Keeping Kept Kept-Stable (λ d. d.current) true)

  previous-Keeping : Keeping Kept load_previous
  unfolding load_previous
  previous-Keeping =
      then-Keeping Kept recover_state (load_release_file (λ d. d.previous) true)
        (recover_state-Keeping Kept Kept-Stable)
        (load-Keeping Kept Kept-Stable (λ d. d.previous) true)

  missing-Keeping :
      (t' : String) (x : Result Error StoredRelease) → Keeping Kept (target_missing t' x)
  unfolding target_missing
  missing-Keeping t' (ok r) = give-Triple r (λ d p. p)
  missing-Keeping t' (err not_exist) =
      look-Keeping Kept (λ d. is_there (manifest_of t' d))
        (λ there. fail (if there then release_not_successful else release_not_found))
        (λ there. fail-Triple _ (λ d p. p))
  missing-Keeping t' (err e) = fail-Triple e (λ d p. p)

  load_success-Keeping : (t' : String) → Keeping Kept (load_success t')
  unfolding load_success
  load_success-Keeping t' = record {
    run = λ w p.
        step (load_release_file (success_of t') true w)
          ((load-Keeping Kept Kept-Stable (success_of t') true).run w p);
  }
    where
      step :
          (x : Result Error StoredRelease × World)
          → Ended (λ _. Kept) Kept x
          → Ended (λ _. Kept) Kept (target_missing t' x.0 x.1)
      step (ok r, w) h = (missing-Keeping t' (ok r)).run w h
      step (err e, w) h = (missing-Keeping t' (err e)).run w h

  target-Keeping : (t' : String) → Keeping Kept (load_target t')
  unfolding load_target
  target-Keeping t' =
      then-Keeping Kept (guard (not (valid_target_id t')) invalid_release)
        (recover_state >> load_success t')
        (guard-Keeping Kept (not (valid_target_id t')) invalid_release)
        (then-Keeping Kept recover_state (load_success t') (recover_state-Keeping Kept Kept-Stable)
          (load_success-Keeping t'))

  append-Keeping : (e : AuditEvent) → Keeping Kept (append_audit e)
  unfolding append_audit ensure_root
  append-Keeping e =
      checked-Keeping _
        (ensure_root
          >> (probe >> (change (λ d. record d { audit = d.audit ++ e ∷ [] }) >> (probe >> probe))))
        (then-Keeping Kept ensure_root _
          (look-Keeping Kept (λ d. d.root) with_root (root-Keeping Kept Kept-Stable))
          (then-Keeping Kept probe _ (probe-Triple (λ d p. p) (λ d p. p)) (
            then-Keeping Kept (change (λ d. record d { audit = d.audit ++ e ∷ [] }))
              (probe >> probe)
              (change-Keeping Kept (λ d. record d { audit = d.audit ++ e ∷ [] }) (λ d p. p))
              (then-Keeping Kept probe probe (probe-Triple (λ d p. p) (λ d p. p))
                (probe-Triple (λ d p. p) (λ d p. p))))))

  call-Keeping : (c : Call) → Keeping Kept (perform c)
  unfolding perform save_validated create_bootstrap commit_success
  call-Keeping read_current =
      then-Keeping Kept load_current (give tt) current-Keeping (give-Triple tt (λ d p. p))
  call-Keeping read_previous =
      then-Keeping Kept load_previous (give tt) previous-Keeping (give-Triple tt (λ d p. p))
  call-Keeping (read_target t') =
      then-Keeping Kept (load_target t') (give tt) (target-Keeping t') (give-Triple tt (λ d p. p))
  call-Keeping (audit e) = append-Keeping e
  call-Keeping (save r) = checked-Keeping (not r.validated || not (savable r.origin)) _ (
      checked-Keeping (not (validate_stored_release r false)) _
        (save_history-Keeping (record r { successful_at = zero_time })))
  call-Keeping (start images compatibility at) =
      let r = bootstrap_release images compatibility at in
      let rest : Fs StoredRelease =
        save_history r >> (write_success r >> (commit_state r >> give r)) in
      then-Keeping Kept (create_bootstrap images compatibility at) (give tt)
        (then-Keeping Kept (guard (not (validate_stored_release r true)) invalid_release) rest
          (guard-Keeping Kept (not (validate_stored_release r true)) invalid_release)
          (then-Keeping Kept (save_history r) (write_success r >> (commit_state r >> give r))
            (save_history-Keeping r)
            (then-Keeping Kept (write_success r) (commit_state r >> give r)
              (write_success-Keeping r)
              (then-Keeping Kept (commit_state r) (give r) (state-Keeping r)
                (give-Triple r (λ d p. p))))))
        (give-Triple tt (λ d p. p))
  call-Keeping (succeed r) =
      let manifest : Fs StoredRelease = load_release_file (manifest_of r.target_id) false in
      let rest : StoredRelease → Fs (Unit {0}) = λ old.
        guard (not (same_release_identity old r)) invalid_release
        >> (write_success r >> commit_state r) in
      checked-Keeping (not r.validated) _ (
        checked-Keeping (not (validate_stored_release r true)) (manifest >>= rest) (
          bind-Triple {M = λ _. Kept} {m = manifest} {f = rest}
            (load-Keeping Kept Kept-Stable (manifest_of r.target_id) false)
            (λ old.
              checked-Keeping (not (same_release_identity old r))
                (write_success r >> commit_state r)
                (then-Keeping Kept (write_success r) (commit_state r) (write_success-Keeping r)
                  (state-Keeping r)))))
  call-Keeping recover = recover_state-Keeping Kept Kept-Stable

  ended-Kept : (x : Result Error (Unit {0}) × World) → Ended (λ _. Kept) Kept x → Kept x.1.disk
  ended-Kept (ok a, w) h = h
  ended-Kept (err e, w) h = h

-- Whatever calls follow, and however their file operations end, a manifest that is kept for a target stays as it is.
pub perform_all-Kept :
    (cs : List (Call × List Verdict)) (t : String) (m : File StoredRelease) (d : Disk)
    → manifest_of t d ≡ some m
    → manifest_of t (perform_all cs d) ≡ some m
unfolding perform_all
perform_all-Kept [] t m d h = h
perform_all-Kept ((c, vs) ∷ cs) t m d h =
    let w : World = record { disk = d; verdicts = vs } in
    perform_all-Kept cs t m (perform c w).1.disk
      (ended-Kept t m (perform c w) ((call-Keeping t m c).run w h))
