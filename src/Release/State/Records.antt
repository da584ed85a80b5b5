-- ===== src/Release/State/Records.antt =====
-- A record of success that was cut off during its writing.
use konzhitai.Prelude.{
  Bool, true, false, not, ◌≡◌, ◌≢◌, refl, Option, none, some, List, [], ◌∷◌, Result, ok, err,
  if◌then◌else◌, lookup, arith,
}
use konzhitai.Prelude.Actions.{◌>>=◌, ◌>>◌, give, fail, guard}
use konzhitai.Release.{StoredRelease, Error, invalid_release, release_exists, not_exist, corrupt}
use konzhitai.Release.Checks.{validate_stored_release}
use konzhitai.Release.State.{
  Verdict, done, refused, late, File, holds, garbled, History, Disk, World, Fs, probe, look,
  load_release_file, loaded, commit_state,
}
use konzhitai.Release.State.Files.{
  same_release_identity, reread, recorded, unread, create_success, write_success, commit_success,
  manifest_of,
}
use konzhitai.Release.State.Triples.{
  Ended, Triple, give-Triple, fail-Triple, bind-Triple, then-Triple, guard-Triple, look-Triple,
}

module _ (d : Disk) where
  abbrev Same : Disk → Type 0
  Same e = e ≡ d

  abbrev Never : {A : Type 0} → A → Disk → Type 0
  Never a e = ⊥

  loaded-Same : (f : Option (File StoredRelease)) → Triple Same (loaded false f) (λ _. Same) Same
  unfolding loaded
  loaded-Same none = fail-Triple not_exist (λ e p. p)
  loaded-Same (some garbled) = fail-Triple corrupt (λ e p. p)
  loaded-Same (some (holds r)) = step (validate_stored_release r false)
    where
      step :
          (b : Bool)
          → Triple Same
              (if b then give (record r { validated = true }) else fail invalid_release)
              (λ _. Same)
              Same
      step true = give-Triple (record r { validated = true }) (λ e p. p)
      step false = fail-Triple invalid_release (λ e p. p)

  load-Same :
      (file : Disk → Option (File StoredRelease))
      → Triple Same (load_release_file file false) (λ _. Same) Same
  unfolding load_release_file
  load-Same file =
      bind-Triple {M = λ _. Same} {m = look file} {f = loaded false}
        (look-Triple file (λ e p. p) (λ e p. p)) loaded-Same

  reread-fails : (r : StoredRelease) → Triple Same (reread r garbled) Never Same
  unfolding reread
  reread-fails r =
      then-Triple {M = λ _. Same} {m = λ w. let (result, w') = probe w in unread result w'}
        {k = recorded r garbled} (record { run = λ w p. read w.disk w.verdicts p })
        (λ _. fail-Triple release_exists (λ e p. p))
    where
      read :
          (e : Disk) (vs : List Verdict)
          → Same e
          → Ended
              (λ _. Same)
              Same
              (unread
                (probe (record { disk = e; verdicts = vs })).0
                (probe (record { disk = e; verdicts = vs })).1)
      read e [] p = p
      read e (done ∷ vs) p = p
      read e (refused ∷ vs) p = p
      read e (late ∷ vs) p = p

  write_success-fails :
      (r : StoredRelease) (h : History)
      → lookup r.target_id d.history ≡ some h
      → h.success ≡ some garbled
      → Triple Same (write_success r) Never Same
  unfolding write_success create_success
  write_success-fails r h there cut = record {
    run = λ w p.
        rw (p, there, cut) ((reread-fails r).run (record { disk = d; verdicts = w.verdicts }) refl);
  }

  commit_success-fails :
      (r : StoredRelease) (h : History)
      → lookup r.target_id d.history ≡ some h
      → h.success ≡ some garbled
      → Triple Same (commit_success r) Never Same
  unfolding commit_success
  commit_success-fails r h there cut =
      then-Triple {M = λ _. Same} {m = guard (not r.validated) invalid_release}
        {k = guard (not (validate_stored_release r true)) invalid_release
          >> (load_release_file (manifest_of r.target_id) false >>= rest)}
        (guarded (not r.validated))
        (λ _.
          then-Triple {M = λ _. Same}
            {m = guard (not (validate_stored_release r true)) invalid_release}
            {k = load_release_file (manifest_of r.target_id) false >>= rest}
            (guarded (not (validate_stored_release r true)))
            (λ _.
              bind-Triple {M = λ _. Same} {m = load_release_file (manifest_of r.target_id) false}
                {f = rest} (load-Same (manifest_of r.target_id))
                (λ old.
                  then-Triple {M = λ _. Same}
                    {m = guard (not (same_release_identity old r)) invalid_release}
                    {k = write_success r >> commit_state r}
                    (guarded (not (same_release_identity old r)))
                    (λ _.
                      then-Triple {M = Never} {m = write_success r} {k = commit_state r}
                        (write_success-fails r h there cut)
                        (λ _. record { run = λ w p. absurd p })))))
    where
      rest : StoredRelease → Fs (Unit {0})
      rest old =
          guard (not (same_release_identity old r)) invalid_release
          >> (write_success r >> commit_state r)

      guarded : (b : Bool) → Triple Same (guard b invalid_release) (λ _. Same) Same
      guarded b = guard-Triple b invalid_release (λ _ e p. p) (λ e p. p)

fails :
    (d : Disk) (x : Result Error (Unit {0}) × World)
    → Ended (Never d) (Same d) x
    → (x.0 ≢ ok tt) × (x.1.disk ≡ d)
fails d (ok a, w) h = absurd h
fails d (err e, w) h = (ground arith, h)

-- Where the record of success of a target does not parse, as after a crash during its writing, no `CommitSuccess` of
-- that target succeeds, and none changes a file.
pub commit_success-blocked :
    (r : StoredRelease) (d : Disk) (vs : List Verdict) (h : History)
    → lookup r.target_id d.history ≡ some h
    → h.success ≡ some garbled
    → let (result, w) = commit_success r (record { disk = d; verdicts = vs }) in
      (result ≢ ok tt) × (w.disk ≡ d)
commit_success-blocked r d vs h there cut =
    let w : World = record { disk = d; verdicts = vs } in
    fails d (commit_success r w) ((commit_success-fails d r h there cut).run w refl)
