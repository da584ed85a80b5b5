-- ===== src/Release/State/Recovery.antt =====
-- What `recoverState` makes of a transaction that was left behind.
use konzhitai.Prelude.{true, ◌≡◌, ◌≢◌, refl, Option, none, some, List, ◌∷◌, Result, ok, err, arith}
use konzhitai.Release.{StoredRelease, Error}
use konzhitai.Release.Checks.{validate_stored_release}
use konzhitai.Release.State.{
  Verdict, done, Transaction, File, holds, garbled, Root, missing, directory, something_else, Disk,
  World, recover_state, replay,
}
use konzhitai.Release.State.Triples.{Ended}
use konzhitai.Release.State.Atomic.{Pair, view, Shows, Settled, recover_state-settles}

-- A transaction of which both releases pass the checks.
abbrev pub ValidPrevious : Option StoredRelease → Type 0
ValidPrevious none = Unit
ValidPrevious (some r) = validate_stored_release r true ≡ true

abbrev pub IsReplayable : Option (File Transaction) → Type 0
IsReplayable none = Unit
IsReplayable (some garbled) = ⊥
IsReplayable (some (holds t)) =
    (validate_stored_release t.current true ≡ true) × ValidPrevious t.previous

abbrev pub all_done : List Verdict → List Verdict
all_done vs = done ∷ done ∷ done ∷ done ∷ done ∷ done ∷ done ∷ done ∷ done ∷ done ∷ done ∷ vs

replay-completes :
    (d : Disk) (vs : List Verdict) (t : Transaction) (p : Option StoredRelease)
    → t.previous ≡ p
    → IsReplayable (some (holds t))
    → (replay (some (holds t)) (record {
      disk = d;
      verdicts = done ∷ done ∷ done ∷ done ∷ done ∷ done ∷ done ∷ done ∷ vs;
    })).0
      ≡ ok tt
unfolding replay
replay-completes d vs t none e v = ground arith
replay-completes d vs t (some r) e v = ground (arith, v.1)

completes :
    (root : Root) (t : Option (File Transaction)) (d : Disk) (vs : List Verdict)
    → root ≢ something_else
    → IsReplayable t
    → (recover_state
        (record { disk = record d { root = root; transaction = t }; verdicts = all_done vs })).0
      ≡ ok tt
unfolding recover_state
completes something_else t d vs h v = absurd (h refl)
completes missing none d vs h v = refl
completes directory none d vs h v = refl
completes missing (some garbled) d vs h v = absurd v
completes directory (some garbled) d vs h v = absurd v
completes missing (some (holds t)) d vs h v =
    replay-completes (record d { root = directory; transaction = some (holds t) }) vs t t.previous
      refl v
completes directory (some (holds t)) d vs h v =
    replay-completes (record d { root = directory; transaction = some (holds t) }) (done ∷ vs) t
      t.previous refl v

settled :
    (v : Pair) (x : Result Error (Unit {0}) × World)
    → Ended (λ _. Settled v) (Shows v) x
    → x.0 ≡ ok tt
    → Settled v x.1.disk
settled v (ok a, w) h e = h
settled v (err f, w) h e = absurd (ground arith)

-- Where the root path is no file of another kind and the transaction, if there is one, passes the checks, and the
-- first eleven file operations succeed, `recoverState` succeeds, and the two state files are then the pair that the
-- files and the transaction showed before, and no transaction is left.
pub recover_state-completes :
    (d : Disk) (vs : List Verdict)
    → d.root ≢ something_else
    → IsReplayable d.transaction
    → let (result, w) = recover_state (record { disk = d; verdicts = all_done vs }) in
      (result ≡ ok tt) × Settled (view d) w.disk
recover_state-completes d vs h v =
    let done_all = completes d.root d.transaction d vs h v in
    let w : World = record { disk = d; verdicts = all_done vs } in
    (
      done_all,
      settled (view d) (recover_state w) ((recover_state-settles (view d)).run w refl) done_all,
    )
