-- ===== src/Alert/Table/Effects.antt =====
-- What `Raise` and `Resolve` of internal/alert/service.go make of the rows of internal/alert/postgres.go, row by row.
use mathlib.Core.Path.{subst}
use konzhitai.Prelude.{
  ◌+◌, ◌-◌, ◌≤◌, ◌≡◌, ◌≢◌, refl, ◌∙◌, ap, String, Bool, true, false, ◌⊎◌, inl, inr, Option, none,
  some, List, [], ◌∷◌, ◌++◌, any, All, if◌then◌else◌, ◌==◌, string_eq, arith,
}
use konzhitai.Clock.{Time}
use konzhitai.Alert.{Event, Status, valid_event, raise, resolve_alert, window}
use konzhitai.Alert.Table.{
  Alert, is_open, is_resolved, latest, update_row, mergeable, merged, new_alert, later, merge_into,
  merge_or_create, unresolved, later_or_greater, resolved_row, resolve_row, resolve,
  postgres_repository,
}
use konzhitai.Alert.Table.Counts.{
  Keyed, Among, latest_none, latest-Among, update_absent, Among-other, pending, resolve-pending,
}

-- An alert of the source and kind of an event.
pub record Concerns (e : Event) (a : Alert) : Type 0 where
  pub same_type : a.event.resource_type ≡ e.resource_type
  pub same_source : a.event.resource_id ≡ e.resource_id
  pub same_code : a.event.code ≡ e.code

-- It is open and occurred in the five minutes before.
pub record Recent (e : Event) (now : Time) (a : Alert) : Type 0 where
  pub concerned : Concerns e a
  pub open_still : a.status ≡ Status.open_alert
  pub lately : now - 300_000_000_000 ≤ a.last_occurred_at

-- It is open or acknowledged.
pub record Unresolved (e : Event) (a : Alert) : Type 0 where
  pub concerned : Concerns e a
  pub not_resolved : a.status ≢ Status.resolved

-- One row is replaced, the others stay.
abbrev pub Swapped : Alert → Alert → List Alert → List Alert → Type 0
Swapped a v [] rows = ⊥
Swapped a v (b ∷ bs) [] = ⊥
Swapped a v (b ∷ bs) (c ∷ cs) = ((b ≡ a) × (c ≡ v) × (cs ≡ bs)) ⊎ ((c ≡ b) × Swapped a v bs cs)

-- The alert once more: counted, with the words of the event and its time.
pub record Occurs (e : Event) (now : Time) (a v : Alert) : Type 0 where
  pub id_kept : v.id ≡ a.id
  pub concerned : Concerns e v
  pub severity_new : v.event.severity ≡ e.severity
  pub title_new : v.event.title ≡ e.title
  pub message_new : v.event.message ≡ e.message
  pub counted : v.occurrences ≡ a.occurrences + 1
  pub status_kept : v.status ≡ a.status
  pub first_kept : v.first_occurred_at ≡ a.first_occurred_at
  pub last_new : v.last_occurred_at ≡ now

-- A new alert.
pub record Opens (e : Event) (now : Time) (v : Alert) : Type 0 where
  pub about : v.event ≡ e
  pub opened : v.status ≡ Status.open_alert
  pub once : v.occurrences ≡ 1
  pub first_at : v.first_occurred_at ≡ now
  pub last_at : v.last_occurred_at ≡ now

abbrev pub Raises : Event → Time → List Alert → List Alert → Type 0
Raises e now rows after =
    ((a : Alert) × (v : Alert) × Recent e now a × Occurs e now a v × Swapped a v rows after)
    ⊎ (All (λ a. Recent e now a → ⊥) rows
        × ((v : Alert) × Opens e now v × (after ≡ rows ++ v ∷ [])))

abbrev pub Resolves : Event → Time → List Alert → List Alert → Type 0
Resolves e now rows after =
    ((a : Alert) × (v : Alert) × Unresolved e a
      × (v.id ≡ a.id)
      × (v.event ≡ a.event)
      × (v.status ≡ Status.resolved)
      × (v.resolved_at ≡ some now)
      × Swapped a v rows after)
    ⊎ (All (λ a. Unresolved e a → ⊥) rows × (after ≡ rows))

update-Swapped :
    (f : Alert → Alert) (a : Alert) (rows : List Alert)
    → Keyed rows
    → Among a rows
    → Swapped a (f a) rows (update_row a.id f rows)
update-Swapped f a [] k m = absurd m
update-Swapped f a (b ∷ rows) (fresh, k) (inl e) = inl (
  e,
  chosen (ap (λ x. x.id) e),
  update_absent a.id f rows (subst (λ x. All (λ y. y.id ≢ x.id) rows) e fresh),
)
  where
    chosen : b.id ≡ a.id → (if b.id == a.id then f b else b) ≡ f a
    chosen g = ground (arith, g) ∙ ap f e
update-Swapped f a (b ∷ rows) (fresh, k) (inr m) =
    inr (other (Among-other b a rows m fresh), update-Swapped f a rows k m)
  where
    other : b.id ≢ a.id → (if b.id == a.id then f b else b) ≡ b
    other ne = ground (arith, ne)

opened_status : (x : Status) → is_open x ≡ true → x ≡ Status.open_alert
opened_status Status.open_alert h = refl
opened_status Status.acknowledged h = absurd (ground (arith, h))
opened_status Status.resolved h = absurd (ground (arith, h))

resolved_status : (x : Status) → is_resolved x ≡ false → x ≢ Status.resolved
resolved_status Status.resolved h e = ground (arith, h)
resolved_status Status.open_alert h e = ground (arith, ap is_resolved e)
resolved_status Status.acknowledged h e = ground (arith, ap is_resolved e)

unresolved_status : (x : Status) → x ≢ Status.resolved → is_resolved x ≡ false
unresolved_status Status.resolved h = absurd (h refl)
unresolved_status Status.open_alert h = refl
unresolved_status Status.acknowledged h = refl

none_All :
    {P : Alert → Type 0} (p : Alert → Bool) (rows : List Alert)
    → ((a : Alert) → P a → p a ≡ true)
    → any p rows ≡ false
    → All (λ a. P a → ⊥) rows
none_All p [] up h = tt
none_All {P} p (a ∷ rows) up h = ((λ x. clash (up a x)), none_All p rows up (ground (arith, h)))
  where
    clash : p a ≡ true → ⊥
    clash g = ground (arith, g, h)

module _ (e : Event) (now : Time) where
  mergeable-Recent : (a : Alert) → mergeable e (now - window) a ≡ true → Recent e now a
  mergeable-Recent a h = record {
    concerned = record {
      same_type = ground (arith, h);
      same_source = ground (arith, h);
      same_code = ground (arith, h);
    };
    open_still = opened_status a.status (ground (arith, h));
    lately = ground (arith, h);
  }

  Recent-mergeable : (a : Alert) → Recent e now a → mergeable e (now - window) a ≡ true
  Recent-mergeable a r = ground (
    arith,
    r.concerned.same_type,
    r.concerned.same_source,
    r.concerned.same_code,
    ap is_open r.open_still,
    r.lately,
  )

  unresolved-Unresolved :
      (a : Alert) → unresolved e.resource_type e.resource_id e.code a ≡ true → Unresolved e a
  unresolved-Unresolved a h = record {
    concerned = record {
      same_type = ground (arith, h);
      same_source = ground (arith, h);
      same_code = ground (arith, h);
    };
    not_resolved = resolved_status a.status (ground (arith, h));
  }

  Unresolved-unresolved :
      (a : Alert) → Unresolved e a → unresolved e.resource_type e.resource_id e.code a ≡ true
  Unresolved-unresolved a u = ground (
    arith,
    u.concerned.same_type,
    u.concerned.same_source,
    u.concerned.same_code,
    unresolved_status a.status u.not_resolved,
  )

  merge_into-Raises :
      (id : String) (rows : List Alert)
      → Keyed rows
      → Raises e now rows
          (merge_into (latest later (mergeable e (now - window)) rows) id e now rows)
  merge_into-Raises id rows k = step (latest later (mergeable e (now - window)) rows) refl
    where
      step :
          (o : Option Alert)
          → latest later (mergeable e (now - window)) rows ≡ o
          → Raises e now rows (merge_into o id e now rows)
      step none g = inr (
        none_All (mergeable e (now - window)) rows Recent-mergeable
            (latest_none later (mergeable e (now - window)) rows g),
        (
          new_alert id e now,
          record { about = refl; opened = refl; once = refl; first_at = refl; last_at = refl },
          refl,
        ),
      )
      step (some a) g =
          let (m, h) = latest-Among later (mergeable e (now - window)) rows a g in
          let r = mergeable-Recent a h in
          inl (
            a,
            merged e now a,
            r,
            record {
              id_kept = refl;
              concerned = record {
                same_type = r.concerned.same_type;
                same_source = r.concerned.same_source;
                same_code = r.concerned.same_code;
              };
              severity_new = refl;
              title_new = refl;
              message_new = refl;
              counted = refl;
              status_kept = refl;
              first_kept = refl;
              last_new = refl;
            },
            update-Swapped (merged e now) a rows k m,
          )

  resolve_row-Resolves :
      (rows : List Alert)
      → Keyed rows
      → Resolves e now rows (
          resolve_row
            (latest later_or_greater (unresolved e.resource_type e.resource_id e.code) rows)
            now
            rows)
  resolve_row-Resolves rows k =
      step (latest later_or_greater (unresolved e.resource_type e.resource_id e.code) rows) refl
    where
      step :
          (o : Option Alert)
          → latest later_or_greater (unresolved e.resource_type e.resource_id e.code) rows ≡ o
          → Resolves e now rows (resolve_row o now rows)
      step none g = inr (
        none_All (unresolved e.resource_type e.resource_id e.code) rows Unresolved-unresolved
            (latest_none later_or_greater (unresolved e.resource_type e.resource_id e.code) rows g),
        refl,
      )
      step (some a) g =
          let (m, h) =
            latest-Among later_or_greater (unresolved e.resource_type e.resource_id e.code) rows a
              g in
          inl (
            a,
            resolved_row now a,
            unresolved-Unresolved a h,
            refl,
            refl,
            refl,
            refl,
            update-Swapped (resolved_row now) a rows k m,
          )

  raised :
      (fresh : List Alert → String) (rows : List Alert)
      → Keyed rows
      → valid_event e ≡ true
      → Raises e now rows (raise (postgres_repository true fresh) now e rows).1
  unfolding raise merge_or_create
  raised fresh rows k v =
      subst (Raises e now rows) (ground (arith, v)) (merge_into-Raises (fresh rows) rows k)

  settled :
      (fresh : List Alert → String) (rows : List Alert)
      → Keyed rows
      → valid_event e ≡ true
      → Resolves e now rows
          (resolve_alert
            (postgres_repository true fresh)
            now
            e.resource_type
            e.resource_id
            e.code
            rows).1
  unfolding resolve_alert resolve valid_event
  settled fresh rows k v =
      subst (Resolves e now rows) (ground (arith, v)) (resolve_row-Resolves rows k)

-- While the database answers, `Raise` of a valid event counts it on an open alert of its source and kind that occurred
-- in the last five minutes, with the words and the time of the event, or, where there is none, appends one new alert;
-- `Resolve` of the source and kind resolves one unresolved alert of them, or changes nothing where there is none. All
-- other rows stay, and after a resolution one unresolved alert less is left.
pub raise-resolve_rows :
    (fresh : List Alert → String) (e : Event) (now : Time) (rows : List Alert)
    → Keyed rows
    → valid_event e ≡ true
    → Raises e now rows (raise (postgres_repository true fresh) now e rows).1
      × Resolves e now rows
          (resolve_alert
            (postgres_repository true fresh)
            now
            e.resource_type
            e.resource_id
            e.code
            rows).1
      × (pending e
            (resolve_alert
              (postgres_repository true fresh)
              now
              e.resource_type
              e.resource_id
              e.code
              rows).1
          ≡ pending e rows - 1)
raise-resolve_rows fresh e now rows k v = (
  raised e now fresh rows k v,
  settled e now fresh rows k v,
  resolve-pending fresh e now rows k v,
)
