-- ===== src/Release/State/Atomic.antt =====
-- The pair of releases that the two state files and the transaction stand for, and what the operations of a commit
-- make of it.
use konzhitai.Prelude.{
  Bool, true, false, not, if◌then◌else◌, ◌≡◌, refl, ap, ◌∙◌, ◌⊎◌, inl, inr, Option, none, some,
  List, [], ◌∷◌, arith,
}
use konzhitai.Prelude.Actions.{◌>>=◌, ◌>>◌, give, fail, guard}
use konzhitai.Release.{StoredRelease, invalid_release, corrupt}
use konzhitai.Release.Checks.{validate_stored_release}
use konzhitai.Release.State.{
  Verdict, done, refused, late, Transaction, File, holds, garbled, Root, missing, directory,
  something_else, Disk, World, Fs, change, probe, look, encoded, encoded_transaction,
  write_json_atomic, previous_of, ensure_root, with_root, restore_previous, replay, recover_state,
  commit_state, load_previous_of, loaded,
}
use konzhitai.Release.State.Triples.{
  Ended, Triple, change-Triple, give-Triple, fail-Triple, bind-Triple, then-Triple, guard-Triple,
  probe-Triple, look-Triple, write-Triple, weaken-Triple,
}

abbrev pub Pair : Type 0
Pair = Option (File StoredRelease) × Option (File StoredRelease)

abbrev pub stored_previous : Option StoredRelease → Option (File StoredRelease)
stored_previous none = none
stored_previous (some r) = some (holds (encoded r))

abbrev pub viewed : Option (File Transaction) → Pair → Pair
viewed none files = files
viewed (some garbled) files = files
viewed (some (holds t)) files = (some (holds (encoded t.current)), stored_previous t.previous)

-- The current and the previous release: those of a transaction that was written, else those of the files.
abbrev pub view : Disk → Pair
view d = viewed d.transaction (d.current, d.previous)

abbrev pub Shows : Pair → Disk → Type 0
Shows v d = view d ≡ v

-- The transaction `t` is being replayed.
abbrev Pending : Transaction → Pair → Disk → Type 0
Pending t v d = (d.transaction ≡ some (holds t)) × (view d ≡ v)

abbrev PreviousDone : Transaction → Pair → Disk → Type 0
PreviousDone t v d =
    (d.transaction ≡ some (holds t)) × (view d ≡ v) × (d.previous ≡ stored_previous t.previous)

abbrev BothDone : Transaction → Pair → Disk → Type 0
BothDone t v d =
    (d.transaction ≡ some (holds t)) × (view d ≡ v) × (d.current ≡ v.0) × (d.previous ≡ v.1)

-- No transaction is left.
abbrev pub Settled : Pair → Disk → Type 0
Settled v d = (d.transaction ≡ none) × (d.current ≡ v.0) × (d.previous ≡ v.1)

module _ (v : Pair) where
  pub Settled-Shows : (d : Disk) → Settled v d → Shows v d
  Settled-Shows d h = ground arith

  ensure_root-keeps : Triple (Shows v) ensure_root (λ _. Shows v) (Shows v)
  unfolding ensure_root
  ensure_root-keeps =
      bind-Triple {M = λ _. Shows v} {m = look (λ d. d.root)} {f = with_root}
        (look-Triple (λ d. d.root) (λ d p. p) (λ d p. p)) rooted
    where
      rooted : (root : Root) → Triple (Shows v) (with_root root) (λ _. Shows v) (Shows v)
      rooted missing =
          change-Triple (λ d. record d { root = directory }) (λ d p. p) (λ d p. p) (λ d p. p)
      rooted directory = give-Triple tt (λ d p. p)
      rooted something_else = fail-Triple invalid_release (λ d p. p)

  restore_previous-writes :
      (t : Transaction) (p : Option StoredRelease)
      → t.previous ≡ p
      → Triple (Pending t v) (restore_previous p) (λ _. PreviousDone t v) (Shows v)
  unfolding restore_previous
  restore_previous-writes t none e =
      change-Triple (λ d. record d { previous = none }) (λ d p. ground arith) (λ d p. p.1)
        (λ d p. ground arith)
  restore_previous-writes t (some r) e =
      then-Triple {M = λ _. Pending t v}
        {m = guard (not (validate_stored_release r true)) invalid_release}
        {k = write_json_atomic (λ d. record d { previous = some (holds (encoded r)) })}
        (guard-Triple (not (validate_stored_release r true)) invalid_release (λ _ d p. p)
          (λ d p. p.1))
        (λ _.
          write-Triple (λ d. record d { previous = some (holds (encoded r)) }) (λ d p. ground arith)
            (λ d p. p.1) (λ d p. p.1))

  -- The two writes and the removal of the transaction.
  finish : Transaction → Fs (Unit {0})
  finish t =
      write_json_atomic (λ d. record d { current = some (holds (encoded t.current)) })
      >> (change (λ d. record d { transaction = none }) >> probe)

  finish-settles :
      (t : Transaction) → Triple (PreviousDone t v) (finish t) (λ _. Settled v) (Shows v)
  unfolding finish
  finish-settles t =
      then-Triple {M = λ _. BothDone t v}
        {m = write_json_atomic (λ d. record d { current = some (holds (encoded t.current)) })}
        {k = change (λ d. record d { transaction = none }) >> probe}
        (write-Triple (λ d. record d { current = some (holds (encoded t.current)) })
          (λ d p. ground arith) (λ d p. p.1) (λ d p. p.1))
        (λ _.
          then-Triple {M = λ _. Settled v} {m = change (λ d. record d { transaction = none })}
            {k = probe}
            (change-Triple (λ d. record d { transaction = none }) (λ d p. ground arith) (λ d p. p.1)
              (λ d p. ground arith))
            (λ _. probe-Triple (λ d p. p) Settled-Shows))

  replay-settles :
      (f : Option (File Transaction))
      → Triple (λ d. (d.transaction ≡ f) × Shows v d) (replay f) (λ _. Settled v) (Shows v)
  unfolding replay finish
  replay-settles none = give-Triple tt (λ d p. ground arith)
  replay-settles (some garbled) = fail-Triple corrupt (λ d p. p.1)
  replay-settles (some (holds t)) =
      then-Triple {M = λ _. Pending t v}
        {m = guard (not (validate_stored_release t.current true)) invalid_release}
        {k = restore_previous t.previous >> finish t}
        (guard-Triple (not (validate_stored_release t.current true)) invalid_release (λ _ d p. p)
          (λ d p. p.1))
        (λ _.
          then-Triple {M = λ _. PreviousDone t v} {m = restore_previous t.previous} {k = finish t}
            (restore_previous-writes t t.previous refl) (λ _. finish-settles t))

  pub recover_state-settles : Triple (Shows v) recover_state (λ _. Settled v) (Shows v)
  unfolding recover_state
  recover_state-settles =
      then-Triple {M = λ _. Shows v} {m = ensure_root} {k = look (λ d. d.transaction) >>= replay}
        ensure_root-keeps
        (λ _.
          bind-Triple {M = λ f d. (d.transaction ≡ f) × Shows v d} {m = look (λ d. d.transaction)}
            {f = replay} (look-Triple (λ d. d.transaction) (λ d p. (refl, p)) (λ d p. p))
            replay-settles)

-- The file that a commit makes of the current release.
abbrev pub encoded_file : Option (File StoredRelease) → Option (File StoredRelease)
encoded_file none = none
encoded_file (some garbled) = some garbled
encoded_file (some (holds r)) = some (holds (encoded r))

-- The pair after a commit.
abbrev pub succeeded_by : StoredRelease → Pair → Pair
succeeded_by r v = (some (holds (encoded r)), encoded_file v.0)

module _ (v : Pair) where
  abbrev Loaded : Option StoredRelease → Disk → Type 0
  Loaded p d = Settled v d × (stored_previous p ≡ encoded_file v.0)

  abbrev Continues : Option (File StoredRelease) → World → Type 0
  unfolding loaded
  Continues f w = Ended Loaded (Shows v) (previous_of (loaded true f w).0 (loaded true f w).1)

  loaded-Continues :
      (f : Option (File StoredRelease)) (w : World)
      → Settled v w.disk
      → w.disk.current ≡ f
      → Continues f w
  unfolding Continues
  loaded-Continues none w p e = ground arith
  loaded-Continues (some garbled) w p e = Settled-Shows v w.disk p
  loaded-Continues (some (holds r)) w p e = step (validate_stored_release r true)
    where
      step :
          (b : Bool)
          → Ended Loaded (Shows v) (
              previous_of
                ((if b then give (record r { validated = true }) else fail invalid_release) w).0
                ((if b then give (record r { validated = true }) else fail invalid_release) w).1)
      step true = (p, ground arith)
      step false = Settled-Shows v w.disk p

  read_previous-Loaded :
      (d : Disk) (vs : List Verdict)
      → Settled v d
      → Ended Loaded (Shows v) (load_previous_of (record { disk = d; verdicts = vs }))
  unfolding load_previous_of Continues
  read_previous-Loaded d [] p = Settled-Shows v d p
  read_previous-Loaded d (refused ∷ vs) p = Settled-Shows v d p
  read_previous-Loaded d (late ∷ vs) p = Settled-Shows v d p
  read_previous-Loaded d (done ∷ vs) p =
      loaded-Continues d.current (record { disk = d; verdicts = vs }) p refl

  load_previous_of-Loaded : Triple (Settled v) load_previous_of Loaded (Shows v)
  load_previous_of-Loaded = record { run = λ w p. read_previous-Loaded w.disk w.verdicts p }

module _ (v : Pair) (r : StoredRelease) where
  -- A failure or a crash leaves the old pair or the new one.
  abbrev pub OldOrNew : Disk → Type 0
  OldOrNew d = (view d ≡ v) ⊎ (view d ≡ succeeded_by r v)

  abbrev transaction_of : Option StoredRelease → Transaction
  transaction_of p = record { current = r; previous = p }

  encoded_again :
      (p : Option StoredRelease)
      → stored_previous (encoded_transaction (transaction_of p)).previous ≡ stored_previous p
  encoded_again none = refl
  encoded_again (some q) = refl

  begun :
      (p : Option StoredRelease)
      → Triple
          (Loaded v p)
          (write_json_atomic
            (λ d. record d { transaction = some (holds (encoded_transaction (transaction_of p))) }))
          (λ _. Shows (succeeded_by r v))
          OldOrNew
  begun p =
      write-Triple
        (λ d. record d { transaction = some (holds (encoded_transaction (transaction_of p))) })
        (λ d h. ap (λ x. (some (holds (encoded r)), x)) (encoded_again p ∙ h.1))
        (λ d h. inl (Settled-Shows v d h.0)) (λ d h. inr h)

  pub commit_state-moves :
      Triple (Shows v) (commit_state r) (λ _. Settled (succeeded_by r v)) OldOrNew
  unfolding commit_state
  commit_state-moves =
      then-Triple {M = λ _. Settled v} {m = recover_state} {k = load_previous_of >>= commit_after}
        (weaken-Triple (recover_state-settles v) (λ d h. inl h))
        (λ _.
          bind-Triple {M = Loaded v} {m = load_previous_of} {f = commit_after}
            (weaken-Triple (load_previous_of-Loaded v) (λ d h. inl h)) after)
    where
      commit_after : Option StoredRelease → Fs (Unit {0})
      commit_after p =
          write_json_atomic
            (λ d. record d { transaction = some (holds (encoded_transaction (transaction_of p))) })
          >> recover_state

      after :
          (p : Option StoredRelease)
          → Triple (Loaded v p) (commit_after p) (λ _. Settled (succeeded_by r v)) OldOrNew
      after p =
          then-Triple {M = λ _. Shows (succeeded_by r v)}
            {m = write_json_atomic (λ d. record d {
              transaction = some (holds (encoded_transaction (transaction_of p)));
            })}
            {k = recover_state} (begun p)
            (λ _. weaken-Triple (recover_state-settles (succeeded_by r v)) (λ d h. inr h))

-- However the file operations end, a commit that succeeds leaves the new release as the current one, the old current
-- one as the previous one and no transaction; a commit that fails or crashes leaves the old pair or the
-- new one in the files, those of a transaction that was written counted before the state files.
pub commit_state-atomic :
    (r : StoredRelease) (d : Disk) (vs : List Verdict)
    → Ended
        (λ _. Settled (succeeded_by r (view d)))
        (OldOrNew (view d) r)
        (commit_state r (record { disk = d; verdicts = vs }))
commit_state-atomic r d vs =
    (commit_state-moves (view d) r).run (record { disk = d; verdicts = vs }) refl
