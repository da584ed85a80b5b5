-- ===== src/Release/State/Keeping.antt =====
-- What `recoverState` and the commit of a state keep: a predicate that each of their changes keeps.
use konzhitai.Prelude.{Bool, true, false, not, if◌then◌else◌, Option, none, some, Result, ok, err}
use konzhitai.Prelude.Actions.{◌>>=◌, ◌>>◌, give, fail, guard}
use konzhitai.Release.{StoredRelease, Error, invalid_release, corrupt, not_exist}
use konzhitai.Release.Checks.{validate_stored_release}
use konzhitai.Release.State.{
  Transaction, File, holds, garbled, Root, missing, directory, something_else, Disk, World,
  recover_state, ensure_root, with_root, replay, restore_previous, Fs, change, probe, look,
  write_json_atomic, encoded, load_release_file, loaded, previous_of, load_previous_of,
  encoded_transaction, commit_state,
}
use konzhitai.Release.State.Triples.{
  Ended, Triple, change-Triple, give-Triple, fail-Triple, bind-Triple, then-Triple, guard-Triple,
  probe-Triple, look-Triple, write-Triple,
}

-- Closed under the changes of `recoverState`.
pub record Stable (P : Disk → Type 0) : Type 0 where
  pub rooted : (d : Disk) → P d → P (record d { root = directory })
  pub previous : (f : Option (File StoredRelease)) (d : Disk) → P d → P (record d { previous = f })
  pub current : (f : Option (File StoredRelease)) (d : Disk) → P d → P (record d { current = f })
  pub erased : (d : Disk) → P d → P (record d { transaction = none })

module _ (P : Disk → Type 0) where
  abbrev pub Keeping : {A : Type 0} → Fs A → Type 0
  Keeping m = Triple P m (λ _. P) P

  pub change-Keeping : (f : Disk → Disk) → ((d : Disk) → P d → P (f d)) → Keeping (change f)
  change-Keeping f k = change-Triple f k (λ d p. p) k

  pub write-Keeping :
      (f : Disk → Disk) → ((d : Disk) → P d → P (f d)) → Keeping (write_json_atomic f)
  write-Keeping f k = write-Triple f k (λ d p. p) (λ d p. p)

  pub guard-Keeping : (b : Bool) (e : Error) → Keeping (guard b e)
  guard-Keeping b e = guard-Triple b e (λ _ d p. p) (λ d p. p)

  pub then-Keeping : {A B : Type 0} (m : Fs A) (k : Fs B) → Keeping m → Keeping k → Keeping (m >> k)
  then-Keeping {A} {B} m k h l = then-Triple {M = λ _. P} {m = m} {k = k} h (λ _. l)

  pub look-Keeping :
      {A B : Type 0} (f : Disk → A) (k : A → Fs B)
      → ((a : A) → Keeping (k a))
      → Keeping (look f >>= k)
  look-Keeping {A} {B} f k h =
      bind-Triple {M = λ _. P} {m = look f} {f = k} (look-Triple f (λ d p. p) (λ d p. p)) h

module _ (P : Disk → Type 0) (st : Stable P) where
  pub root-Keeping : (root : Root) → Keeping P (with_root root)
  unfolding with_root
  root-Keeping missing = change-Keeping P (λ d. record d { root = directory }) st.rooted
  root-Keeping directory = give-Triple tt (λ d p. p)
  root-Keeping something_else = fail-Triple invalid_release (λ d p. p)

  previous-Keeping : (p : Option StoredRelease) → Keeping P (restore_previous p)
  unfolding restore_previous
  previous-Keeping none = change-Keeping P (λ d. record d { previous = none }) (st.previous none)
  previous-Keeping (some r) =
      then-Keeping P (guard (not (validate_stored_release r true)) invalid_release)
        (write_json_atomic (λ d. record d { previous = some (holds (encoded r)) }))
        (guard-Keeping P (not (validate_stored_release r true)) invalid_release)
        (write-Keeping P (λ d. record d { previous = some (holds (encoded r)) })
          (st.previous (some (holds (encoded r)))))

  replay-Keeping : (t : Option (File Transaction)) → Keeping P (replay t)
  unfolding replay
  replay-Keeping none = give-Triple tt (λ d p. p)
  replay-Keeping (some garbled) = fail-Triple corrupt (λ d p. p)
  replay-Keeping (some (holds t)) =
      let write : Fs (Unit {0}) =
        write_json_atomic (λ d. record d { current = some (holds (encoded t.current)) }) in
      let erase : Fs (Unit {0}) = change (λ d. record d { transaction = none }) in
      then-Keeping P (guard (not (validate_stored_release t.current true)) invalid_release)
        (restore_previous t.previous >> (write >> (erase >> probe)))
        (guard-Keeping P (not (validate_stored_release t.current true)) invalid_release)
        (then-Keeping P (restore_previous t.previous) (write >> (erase >> probe))
          (previous-Keeping t.previous)
          (then-Keeping P write (erase >> probe)
            (write-Keeping P (λ d. record d { current = some (holds (encoded t.current)) })
              (st.current (some (holds (encoded t.current)))))
            (then-Keeping P erase probe
              (change-Keeping P (λ d. record d { transaction = none }) st.erased)
              (probe-Triple (λ d p. p) (λ d p. p)))))

  pub recover_state-Keeping : Keeping P recover_state
  unfolding recover_state ensure_root
  recover_state-Keeping =
      then-Keeping P ensure_root (look (λ d. d.transaction) >>= replay)
        (look-Keeping P (λ d. d.root) with_root root-Keeping)
        (look-Keeping P (λ d. d.transaction) replay replay-Keeping)

  loaded-Keeping : (b : Bool) (f : Option (File StoredRelease)) → Keeping P (loaded b f)
  unfolding loaded
  loaded-Keeping b none = fail-Triple not_exist (λ d p. p)
  loaded-Keeping b (some garbled) = fail-Triple corrupt (λ d p. p)
  loaded-Keeping b (some (holds r)) = step (validate_stored_release r b)
    where
      step :
          (c : Bool)
          → Keeping P (if c then give (record r { validated = true }) else fail invalid_release)
      step true = give-Triple (record r { validated = true }) (λ d p. p)
      step false = fail-Triple invalid_release (λ d p. p)

  pub load-Keeping :
      (file : Disk → Option (File StoredRelease)) (b : Bool) → Keeping P (load_release_file file b)
  unfolding load_release_file
  load-Keeping file b = look-Keeping P file (loaded b) (loaded-Keeping b)

  previous_of-kept :
      (x : Result Error StoredRelease × World)
      → Ended (λ _. P) P x
      → Ended (λ _. P) P (previous_of x.0 x.1)
  previous_of-kept (ok a, w) h = h
  previous_of-kept (err not_exist, w) h = h
  previous_of-kept (err e, w) h = h

  -- The commit of a state, for a predicate that does not look at the transaction.
  pub commit_state-keeps :
      (written : (t : Option (File Transaction)) (d : Disk)
        → P d
        → P (record d { transaction = t }))
      (r : StoredRelease)
      → Keeping P (commit_state r)
  unfolding commit_state load_previous_of
  commit_state-keeps written r =
      then-Keeping P recover_state (load_previous_of >>= commit_after) recover_state-Keeping (
        bind-Triple {M = λ _. P} {m = load_previous_of} {f = commit_after}
          (record {
            run = λ w p.
                previous_of-kept (load_release_file (λ d. d.current) true w)
                  ((load-Keeping (λ d. d.current) true).run w p);
          })
          after)
    where
      transaction_of : Option StoredRelease → Transaction
      transaction_of p = record { current = r; previous = p }

      write : Option StoredRelease → Fs (Unit {0})
      write p =
          write_json_atomic
            (λ d. record d { transaction = some (holds (encoded_transaction (transaction_of p))) })

      commit_after : Option StoredRelease → Fs (Unit {0})
      commit_after p = write p >> recover_state

      after : (p : Option StoredRelease) → Keeping P (commit_after p)
      after p =
          then-Keeping P (write p) recover_state
            (write-Keeping P
              (λ d. record d {
                transaction = some (holds (encoded_transaction (transaction_of p)));
              })
              (written (some (holds (encoded_transaction (transaction_of p))))))
            recover_state-Keeping
