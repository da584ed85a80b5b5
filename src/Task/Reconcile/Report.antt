-- ===== src/Task/Reconcile/Report.antt =====
-- What a report of an agent makes of the runs of its server, for each run on its own.
use mathlib.Core.Path.{subst}
use konzhitai.Prelude.{
  ◌≡◌, ◌≢◌, ◌⊎◌, refl, sym, ◌∙◌, ap, Bool, true, false, not, String, Option, none, some, List, [],
  ◌∷◌, map, keep, All, All-keep, ok, if◌then◌else◌, ◌==◌, string_eq, Bool-cases, ◌!=◌, inl, inr,
  arith,
}
use konzhitai.Clock.{Time}
use konzhitai.Task.{RunState, state_eq}
use konzhitai.Task.Usage.{ResourceUsage}
use konzhitai.Task.Reconcile.{
  RunRow, Database, confirm_running, usage_of, RunningReport, update_row, append_system_run_event,
  save_run_usage, reported, is_running, found, vanished, reconcile_run, reconcile_all, is_candidate,
  reconcile_running,
}

abbrev pub DistinctIds : List RunRow → Type 0
DistinctIds [] = Unit
DistinctIds (r ∷ rs) = All (λ q. r.id ≢ q.id) rs × DistinctIds rs

-- What a report says of one run.
unfoldable pub confirmed : RunningReport → Time → RunRow → RunRow
confirmed report at r =
    if is_running (reported r.id report.processes) r.token
    then found at r
    else if not report.authoritative
    then r
    else if r.process_confirmed_gone
    then r
    else vanished at r

module _ (report : RunningReport) (at : Time) where
  -- The change that the candidate `c` makes to a row.
  abbrev change : RunRow → RunRow → RunRow
  change c r =
      if is_running (reported c.id report.processes) c.token
      then found at r
      else if not report.authoritative
      then r
      else if c.process_confirmed_gone
      then r
      else vanished at r

  abbrev touch : RunRow → RunRow → RunRow
  touch c r = if r.id == c.id then change c r else r

  save_run_usage-runs :
      (id : String) (u : Option ResourceUsage) (db : Database)
      → (save_run_usage id u db).runs ≡ db.runs
  unfolding save_run_usage append_system_run_event
  save_run_usage-runs id none db = refl
  save_run_usage-runs id (some u) db = ground arith

  map_id : (id : String) (rs : List RunRow) → map (λ r. if r.id == id then r else r) rs ≡ rs
  map_id id [] = refl
  map_id id (r ∷ rs) = ground (arith, map_id id rs)

  usage_kept :
      (c : RunRow) (db : Database)
      → map
          (λ r. if r.id == c.id then found at r else r)
          (save_run_usage c.id (usage_of (reported c.id report.processes)) db).runs
        ≡ map (λ r. if r.id == c.id then found at r else r) db.runs
  usage_kept c db =
      ap (map (λ r. if r.id == c.id then found at r else r))
        (save_run_usage-runs c.id (usage_of (reported c.id report.processes)) db)

  map_same :
      {f g : RunRow → RunRow} (rs : List RunRow) → ((r : RunRow) → f r ≡ g r) → map f rs ≡ map g rs
  map_same [] h = refl
  map_same (r ∷ rs) h = ground (arith, h r, map_same rs h)

  map_self : (rs : List RunRow) → map (λ r. r) rs ≡ rs
  map_self [] = refl
  map_self (r ∷ rs) = ap (◌∷◌ r) (map_self rs)

  touch-found :
      (c r : RunRow)
      → is_running (reported c.id report.processes) c.token ≡ true
      → (if r.id == c.id then found at r else r) ≡ touch c r
  touch-found c r h = ground (arith, h)

  touch_kept :
      (c r : RunRow)
      → is_running (reported c.id report.processes) c.token ≡ false
      → (report.authoritative ≡ false) ⊎ (c.process_confirmed_gone ≡ true)
      → r ≡ touch c r
  touch_kept c r h (inl e) = ground (arith, h)
  touch_kept c r h (inr e) = ground (arith, h)

  touch-vanished :
      (c r : RunRow)
      → is_running (reported c.id report.processes) c.token ≡ false
      → report.authoritative ≡ true
      → c.process_confirmed_gone ≡ false
      → (if r.id == c.id then vanished at r else r) ≡ touch c r
  touch-vanished c r h e f = ground (arith, h)

  unchanged :
      (c : RunRow) (db : Database)
      → is_running (reported c.id report.processes) c.token ≡ false
      → (report.authoritative ≡ false) ⊎ (c.process_confirmed_gone ≡ true)
      → (reconcile_run report at c db).runs ≡ map (touch c) db.runs
  unfolding reconcile_run
  unchanged c db h why =
      same why ∙ (sym (map_self db.runs) ∙ map_same db.runs (λ r. touch_kept c r h why))
    where
      same :
          (report.authoritative ≡ false) ⊎ (c.process_confirmed_gone ≡ true)
          → (reconcile_run report at c db).runs ≡ db.runs
      same (inl e) = ground (arith, h)
      same (inr e) = ground (arith, h)

  gone_now :
      (c : RunRow) (db : Database)
      → is_running (reported c.id report.processes) c.token ≡ false
      → report.authoritative ≡ true
      → c.process_confirmed_gone ≡ false
      → (reconcile_run report at c db).runs
        ≡ map (λ r. if r.id == c.id then vanished at r else r) db.runs
  unfolding reconcile_run update_row append_system_run_event
  gone_now c db h e f = ground (arith, h)

  reconcile_run-runs :
      (c : RunRow) (db : Database) → (reconcile_run report at c db).runs ≡ map (touch c) db.runs
  unfolding reconcile_run update_row append_system_run_event
  reconcile_run-runs c db =
      elim (Bool-cases (is_running (reported c.id report.processes) c.token)) [
        | inl there ↦
            let same = map_same db.runs (λ r. touch-found c r there) in
            elim (Bool-cases (c.state != RunState.running)) [
              | inl e ↦ rw (there, e, confirm_running) (usage_kept c db ∙ same)
              | inr e ↦ rw (there, e, confirm_running) (usage_kept c db ∙ same)
            ]
        | inr gone ↦ elim (Bool-cases report.authoritative) [
          | inr e ↦ unchanged c db gone (inl e)
          | inl e ↦ elim (Bool-cases c.process_confirmed_gone) [
            | inl f ↦ unchanged c db gone (inr f)
            | inr f ↦ gone_now c db gone e f ∙ map_same db.runs (λ r. touch-vanished c r gone e f)
          ]
        ]
      ]

  map_twice : (f g : RunRow → RunRow) (rs : List RunRow) → map g (map f rs) ≡ map (λ r. g (f r)) rs
  map_twice f g [] = refl
  map_twice f g (r ∷ rs) = ap (◌∷◌ (g (f r))) (map_twice f g rs)

  touch_all : List RunRow → RunRow → RunRow
  touch_all [] r = r
  touch_all (c ∷ cs) r = touch_all cs (touch c r)

  reconcile_all-runs :
      (cs : List RunRow) (db : Database)
      → (reconcile_all report at cs db).runs ≡ map (touch_all cs) db.runs
  unfolding reconcile_all touch_all
  reconcile_all-runs [] db = sym (map_self db.runs)
  reconcile_all-runs (c ∷ cs) db =
      reconcile_all-runs cs (reconcile_run report at c db)
      ∙ (ap (map (touch_all cs)) (reconcile_run-runs c db)
          ∙ map_twice (touch c) (touch_all cs) db.runs)

  touch_other : (c r : RunRow) → r.id ≢ c.id → touch c r ≡ r
  touch_other c r h = ground arith

  touch_none : (cs : List RunRow) (r : RunRow) → All (λ c. r.id ≢ c.id) cs → touch_all cs r ≡ r
  unfolding touch_all
  touch_none [] r h = refl
  touch_none (c ∷ cs) r (hc, h) = ap (touch_all cs) (touch_other c r hc) ∙ touch_none cs r h

  abbrev spec : RunRow → RunRow
  unfolding confirmed
  spec r = if is_candidate report.server_id r then confirmed report at r else r

  -- The candidates that come later are other runs.
  not_later :
      (r : RunRow) (rs : List RunRow)
      → All (λ q. r.id ≢ q.id) rs
      → All (λ c. r.id ≢ c.id) (keep (is_candidate report.server_id) rs)
  not_later r rs h = All-keep (λ c. r.id ≢ c.id) (is_candidate report.server_id) rs h

  touch_tail : (c : RunRow) (rs : List RunRow) → All (λ q. c.id ≢ q.id) rs → map (touch c) rs ≡ rs
  touch_tail c [] h = refl
  touch_tail c (r ∷ rs) (hr, h) =
      let same : touch c r ≡ r = touch_other c r (λ e. hr (sym e)) in
      ground (arith, same, touch_tail c rs h)

  touch_self : (r : RunRow) → touch r r ≡ confirmed report at r
  unfolding confirmed
  touch_self r = ground arith

  each_confirmed :
      (rs : List RunRow)
      → DistinctIds rs
      → map (touch_all (keep (is_candidate report.server_id) rs)) rs ≡ map spec rs
  unfolding touch_all confirmed
  each_confirmed [] d = refl
  each_confirmed (r ∷ rs) (dr, d) =
      step (is_candidate report.server_id r) refl (each_confirmed rs d)
    where
      later : List RunRow
      later = keep (is_candidate report.server_id) rs

      same_id : (confirmed report at r).id ≡ r.id
      same_id = ground arith

      still_not_later : All (λ c. (confirmed report at r).id ≢ c.id) later
      still_not_later = subst (λ id. All (λ c. id ≢ c.id) later) (sym same_id) (not_later r rs dr)

      head :
          (b : Bool)
          → is_candidate report.server_id r ≡ b
          → touch_all (if b then r ∷ later else later) r ≡ spec r
      head true e =
          ap (touch_all later) (touch_self r)
          ∙ (touch_none later (confirmed report at r) still_not_later
              ∙ ap (λ b. if b then confirmed report at r else r) (sym e))
      head false e =
          touch_none later r (not_later r rs dr)
          ∙ ap (λ b. if b then confirmed report at r else r) (sym e)

      tail :
          (b : Bool)
          → map (touch_all (if b then r ∷ later else later)) rs ≡ map (touch_all later) rs
      tail true =
          sym (map_twice (touch r) (touch_all later) rs)
          ∙ ap (map (touch_all later)) (touch_tail r rs dr)
      tail false = refl

      step :
          (b : Bool)
          → is_candidate report.server_id r ≡ b
          → map (touch_all later) rs ≡ map spec rs
          → map (touch_all (if b then r ∷ later else later)) (r ∷ rs) ≡ map spec (r ∷ rs)
      step b e ih =
          ap (λ x. x ∷ map (touch_all (if b then r ∷ later else later)) rs) (head b e)
          ∙ ap (◌∷◌ (spec r)) (tail b ∙ ih)

-- The rows after a report, one by one.
pub reconcile_running-runs :
    (report : RunningReport) (at : Time) (db : Database)
    → DistinctIds db.runs
    → let (result, db') = reconcile_running true report at db in
      (result ≡ ok tt)
      × (db'.runs
          ≡ map (λ r. if is_candidate report.server_id r then confirmed report at r else r) db.runs)
unfolding reconcile_running confirmed
reconcile_running-runs report at db d = (
  refl,
  reconcile_all-runs report at (keep (is_candidate report.server_id) db.runs) db
      ∙ each_confirmed report at db.runs d,
)
