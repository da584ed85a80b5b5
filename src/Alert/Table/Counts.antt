-- ===== src/Alert/Table/Counts.antt =====
-- How `Raise` and `Resolve` of internal/alert/service.go change the number of alerts of a source and kind that are not
-- resolved, over the rows of internal/alert/postgres.go.
use mathlib.Core.Path.{subst}
use konzhitai.Prelude.{
  ℕ, ◌+◌, ◌-◌, ◌≡◌, ◌≢◌, refl, sym, ◌∙◌, ap, String, Bool, true, false, not, ◌&&◌, ◌||◌, ◌⊎◌, inl,
  inr, Option, none, some, List, [], ◌∷◌, any, keep, length, All, if◌then◌else◌, string_eq, arith,
}
use konzhitai.Clock.{Time}
use konzhitai.Alert.{Event, valid_event, resolve_alert}
use konzhitai.Alert.Table.{
  Alert, latest, update_row, unresolved, later_or_greater, resolved_row, resolve_row, resolve,
  postgres_repository,
}

abbrev pub count : (Alert → Bool) → List Alert → ℕ
count p rows = length (keep p rows)

-- The primary key.
abbrev pub Keyed : List Alert → Type 0
Keyed [] = Unit
Keyed (a ∷ rows) = All (λ b. b.id ≢ a.id) rows × Keyed rows

abbrev pub Among : Alert → List Alert → Type 0
Among a [] = ⊥
Among a (b ∷ rows) = (b ≡ a) ⊎ Among a rows

pub latest_none :
    (newer : Alert → Alert → Bool) (p : Alert → Bool) (rows : List Alert)
    → latest newer p rows ≡ none
    → any p rows ≡ false
latest_none newer p [] h = refl
latest_none newer p (a ∷ rows) h = step (latest newer p rows) (p a) (latest_none newer p rows) h
  where
    step :
        (o : Option Alert) (b : Bool)
        → (o ≡ none → any p rows ≡ false)
        → elim o [
          | none ↦ if b then some a else none
          | some c ↦ if b && not (newer c a) then some a else some c
        ]
          ≡ none
        → b || any p rows ≡ false
    step none true ih e = absurd (ground (arith, e))
    step none false ih e = ih refl
    step (some c) b ih e = absurd (some_none (b && not (newer c a)) e)
      where
        some_none : (x : Bool) → (if x then some a else some c) ≡ none → ⊥
        some_none true g = ground (arith, g)
        some_none false g = ground (arith, g)

pub latest-Among :
    (newer : Alert → Alert → Bool) (p : Alert → Bool) (rows : List Alert) (c : Alert)
    → latest newer p rows ≡ some c
    → Among c rows × (p c ≡ true)
latest-Among newer p [] c h = absurd (ground (arith, h))
latest-Among newer p (a ∷ rows) c h =
    step (latest newer p rows) (p a) refl (latest-Among newer p rows) h
  where
    same : (b : Alert) → some b ≡ some c → b ≡ c
    same b g = ground (arith, g)

    step :
        (o : Option Alert) (b : Bool)
        → p a ≡ b
        → ((d : Alert) → o ≡ some d → Among d rows × (p d ≡ true))
        → elim o [
          | none ↦ if b then some a else none
          | some d ↦ if b && not (newer d a) then some a else some d
        ]
          ≡ some c
        → Among c (a ∷ rows) × (p c ≡ true)
    step none true q ih e = (inl (same a e), ap p (sym (same a e)) ∙ q)
    step none false q ih e = absurd (ground (arith, e))
    step (some d) false q ih e = let (m, g) = ih c e in (inr m, g)
    step (some d) true q ih e = picked (newer d a) e
      where
        picked :
            (x : Bool)
            → (if not x then some a else some d) ≡ some c
            → Among c (a ∷ rows) × (p c ≡ true)
        picked false g = (inl (same a g), ap p (sym (same a g)) ∙ q)
        picked true g = let (m, k) = ih c g in (inr m, k)

-- A row that is not there is not updated.
pub update_absent :
    (id : String) (f : Alert → Alert) (rows : List Alert)
    → All (λ b. b.id ≢ id) rows
    → update_row id f rows ≡ rows
update_absent id f [] h = refl
update_absent id f (a ∷ rows) (h, hs) = ground (arith, h, update_absent id f rows hs)

pub Among-other :
    (a c : Alert) (rows : List Alert) → Among c rows → All (λ b. b.id ≢ a.id) rows → a.id ≢ c.id
Among-other a c [] m h = absurd m
Among-other a c (b ∷ rows) (inl e) (h, hs) = λ g. h (ap (λ r. r.id) e ∙ sym g)
Among-other a c (b ∷ rows) (inr m) (h, hs) = Among-other a c rows m hs

count-cons :
    (p : Alert → Bool) (a : Alert) (rows : List Alert)
    → count p (a ∷ rows) ≡ count p (a ∷ []) + count p rows
count-cons p a rows = ground arith

update_head :
    (p : Alert → Bool) (f : Alert → Alert) (a : Alert) (rows : List Alert)
    → All (λ b. b.id ≢ a.id) rows
    → count p (update_row a.id f (a ∷ rows)) + count p (a ∷ [])
      ≡ count p (a ∷ rows) + count p (f a ∷ [])
update_head p f a rows h =
    ground (arith, update_absent a.id f rows h, count-cons p a rows, count-cons p (f a) rows)

pub update_tail :
    (f : Alert → Alert) (a c : Alert) (rows : List Alert)
    → a.id ≢ c.id
    → update_row c.id f (a ∷ rows) ≡ a ∷ update_row c.id f rows
update_tail f a c rows h = ground (arith, h)

-- The number of rows with a property, when one row of a key is updated.
count-update :
    (p : Alert → Bool) (f : Alert → Alert) (c : Alert) (rows : List Alert)
    → Keyed rows
    → Among c rows
    → count p (update_row c.id f rows) + count p (c ∷ []) ≡ count p rows + count p (f c ∷ [])
count-update p f c [] k m = absurd m
count-update p f c (a ∷ rows) (fresh, k) (inl e) =
    subst
      (λ d.
        count p (update_row d.id f (a ∷ rows)) + count p (d ∷ [])
        ≡ count p (a ∷ rows) + count p (f d ∷ []))
      e (update_head p f a rows fresh)
count-update p f c (a ∷ rows) (fresh, k) (inr m) = ground (
  arith,
  ap (count p) (update_tail f a c rows (Among-other a c rows m fresh)),
  count-cons p a (update_row c.id f rows),
  count-cons p a rows,
  count-update p f c rows k m,
)

none_any : (p : Alert → Bool) (rows : List Alert) → any p rows ≡ false → count p rows ≡ 0
none_any p [] h = refl
none_any p (a ∷ rows) h = ground (arith, h, none_any p rows)

module _ (e : Event) where
  -- The alerts of the source and kind of an event that are not resolved.
  abbrev pub pending : List Alert → ℕ
  pending rows = count (unresolved e.resource_type e.resource_id e.code) rows

  pending-resolved_row : (at : Time) (a : Alert) → pending (resolved_row at a ∷ []) ≡ 0
  pending-resolved_row at a = ground arith

  pending_one :
      (a : Alert) → unresolved e.resource_type e.resource_id e.code a ≡ true → pending (a ∷ []) ≡ 1
  pending_one a h = ground (arith, h)

  resolve_row-pending :
      (at : Time) (rows : List Alert)
      → Keyed rows
      → pending (
          resolve_row
            (latest later_or_greater (unresolved e.resource_type e.resource_id e.code) rows)
            at
            rows)
        ≡ pending rows - 1
  resolve_row-pending at rows k =
      step (latest later_or_greater (unresolved e.resource_type e.resource_id e.code) rows) refl
    where
      step :
          (o : Option Alert)
          → latest later_or_greater (unresolved e.resource_type e.resource_id e.code) rows ≡ o
          → pending (resolve_row o at rows) ≡ pending rows - 1
      step none g = ground (
        arith,
        none_any (unresolved e.resource_type e.resource_id e.code) rows
            (latest_none later_or_greater (unresolved e.resource_type e.resource_id e.code) rows g),
      )
      step (some a) g =
          let (m, h) =
            latest-Among later_or_greater (unresolved e.resource_type e.resource_id e.code) rows a
              g in
          ground (
            arith,
            count-update (unresolved e.resource_type e.resource_id e.code) (resolved_row at) a rows
                k m,
            pending-resolved_row at a,
            pending_one a h,
          )

-- A resolution that is not turned away.
pub resolve-pending :
    (fresh : List Alert → String) (e : Event) (now : Time) (rows : List Alert)
    → Keyed rows
    → valid_event e ≡ true
    → pending e
        (resolve_alert
          (postgres_repository true fresh)
          now
          e.resource_type
          e.resource_id
          e.code
          rows).1
      ≡ pending e rows - 1
unfolding resolve_alert resolve valid_event
resolve-pending fresh e now rows k v = ground (arith, v, resolve_row-pending e now rows k)
