-- ===== src/Scheduler/Queue/Laws.antt =====
-- The queue as a priority queue of runs with distinct ids.
use mathlib.Core.List.{Memᴰ}
use mathlib.Core.Path.{subst}
use mathlib.Core.Option.{some-injective}
use konzhitai.Prelude.{
  suc, ◌<◌, true, ◌≡◌, ◌≢◌, refl, sym, ap, ◌⊎◌, Bool, false, String, Map, lookup, insert, erase,
  IsMap, insert-IsMap, erase-IsMap, lookup-erase_self, lookup-erase_ne, lookup-insert_self,
  lookup-insert_ne, none, some, List, [], ◌∷◌, length, arith, All, ◌==◌, string_eq, Bool-cases, inl,
  inr,
}
use konzhitai.Prelude.Sort.{
  IsSorted, IsStrictWeak, sort-IsSorted, sort-All, sort-All_inv, sort-ne-nil,
}
use konzhitai.Prelude.Int.{◌<ℤ◌}
use konzhitai.Prelude.TextOrder.{str_less, str_less_asym, str_less_trans}
use konzhitai.Task.{Run}
use konzhitai.Scheduler.Queue.{Queue, push, pop, len, runs_before, sort_runs, values, take_first}

-- Each run stands under its own id, once.
pub record IsValid (q : Queue) : Type 0 where
  pub distinct : IsMap q.items
  pub keyed : All (λ e. e.0 ≡ e.1.id) q.items

runs_before-IsStrictWeak : IsStrictWeak runs_before
unfolding runs_before
runs_before-IsStrictWeak = record {
  asym = λ a b h. ground (arith, str_less_asym a.id b.id);
  trans = λ a b c h k. ground (arith, str_less_trans a.id b.id c.id);
}

insert-keyed :
    (k : String) (r : Run) (m : Map Run)
    → k ≡ r.id
    → All (λ e. e.0 ≡ e.1.id) m
    → All (λ e. e.0 ≡ e.1.id) (insert k r m)
insert-keyed k r [] h a = (h, tt)
insert-keyed k r (e ∷ m) h a = ground (arith, insert-keyed k r m h a.1)

pub erase-keyed :
    (k : String) (m : Map Run) → All (λ e. e.0 ≡ e.1.id) m → All (λ e. e.0 ≡ e.1.id) (erase k m)
erase-keyed k [] a = tt
erase-keyed k (e ∷ m) a = ground (arith, erase-keyed k m a.1)

-- In a valid queue a listed run is found under its id.
value-lookup :
    (m : Map Run) (r : Run)
    → IsMap m
    → All (λ e. e.0 ≡ e.1.id) m
    → Memᴰ r (values m)
    → lookup r.id m ≡ some r
value-lookup [] r d k mem = elim mem [ ]
value-lookup (e ∷ m) r d k (Memᴰ.head p) = ground arith
value-lookup (e ∷ m) r d k (Memᴰ.tail mem) = ground (arith, value-lookup m r d.1 k.1 mem)

-- What holds of every listed run as an equation holds of one that is found.
lookup-holds :
    (p : Run → Bool) (m : Map Run) (k : String) (r : Run)
    → All (λ y. p y ≡ false) (values m)
    → lookup k m ≡ some r
    → p r ≡ false
lookup-holds p [] k r a h = cc
lookup-holds p (e ∷ m) k r a h = ground (arith, lookup-holds p m k r a.1)

members : (m : List Run) → All (λ y. Memᴰ y m) m
members [] = tt
members (x ∷ m) = (Memᴰ.head refl, later (λ y. Memᴰ.tail) m (members m))
  where
    later :
        ((y : Run) → Memᴰ y m → Memᴰ y (x ∷ m))
        → (l : List Run) → All (λ y. Memᴰ y m) l
        → All (λ y. Memᴰ y (x ∷ m)) l
    later up [] a = tt
    later up (y ∷ l) a = (up y a.0, later up l a.1)

irreflexive : (r : Run) → runs_before r r ≡ false
irreflexive r = elim (Bool-cases (runs_before r r)) [
  | inl h ↦ runs_before-IsStrictWeak.asym r r h
  | inr h ↦ h
]

-- A higher priority goes first, then the earlier time in the queue, then the smaller id.
pub data Precedes (a b : Run) : Type 0 where
  by_priority : b.priority <ℤ a.priority → Precedes a b
  by_time : a.priority ≡ b.priority → a.queued_at < b.queued_at → Precedes a b
  by_id :
      a.priority ≡ b.priority → a.queued_at ≡ b.queued_at → str_less a.id b.id ≡ true → Precedes a b

priority_first : (a b : Run) → b.priority <ℤ a.priority → runs_before a b ≡ true
unfolding runs_before
priority_first a b h = ground (arith, h)

time_next :
    (a b : Run) → a.priority ≡ b.priority → a.queued_at < b.queued_at → runs_before a b ≡ true
unfolding runs_before
time_next a b h k = ground (arith, h, k)

id_last :
    (a b : Run)
    → a.priority ≡ b.priority
    → a.queued_at ≡ b.queued_at
    → str_less a.id b.id ≡ true
    → runs_before a b ≡ true
unfolding runs_before
id_last a b h k l = ground (arith, h, k, l)

Precedes-runs_before : (a b : Run) → Precedes a b → runs_before a b ≡ true
Precedes-runs_before a b (Precedes.by_priority h) = priority_first a b h
Precedes-runs_before a b (Precedes.by_time h k) = time_next a b h k
Precedes-runs_before a b (Precedes.by_id h k l) = id_last a b h k l

not_preceded : (a b : Run) → runs_before a b ≡ false → Precedes a b → ⊥
not_preceded a b h p = clash (Precedes-runs_before a b p)
  where
    clash : runs_before a b ≡ true → ⊥
    clash g = ground (arith, g, h)

-- What a pop takes out, and what it leaves.
pub record Pops (q : Queue) (r : Run) (q' : Queue) : Type 0 where
  pub held : lookup r.id q.items ≡ some r
  pub first : (k : String) (other : Run) → lookup k q.items ≡ some other → Precedes other r → ⊥
  pub gone : lookup r.id q'.items ≡ none
  pub rest : (k : String) → k ≢ r.id → lookup k q'.items ≡ lookup k q.items
  pub valid : IsValid q'

IsSorted-runs : (xs : List Run) → IsSorted runs_before (sort_runs xs)
unfolding sort_runs
IsSorted-runs xs = sort-IsSorted runs_before runs_before-IsStrictWeak xs

first_of_sorted :
    (xs : List Run) (r : Run) (rest : List Run)
    → sort_runs xs ≡ r ∷ rest
    → All (λ y. runs_before y r ≡ false) xs
unfolding sort_runs
first_of_sorted xs r rest e =
    let s : IsSorted runs_before (r ∷ rest) = subst (IsSorted runs_before) e (IsSorted-runs xs) in
    sort-All_inv runs_before (λ y. runs_before y r ≡ false) xs
      (subst (All (λ y. runs_before y r ≡ false)) (sym e) (irreflexive r, s.0))

first_listed :
    (m : Map Run) (r : Run) (rest : List Run) → sort_runs (values m) ≡ r ∷ rest → Memᴰ r (values m)
unfolding sort_runs
first_listed m r rest e =
    (subst (All (λ y. Memᴰ y (values m))) e
      (sort-All runs_before (λ y. Memᴰ y (values m)) (values m) (members (values m)))).0

-- From a valid queue `Pop` takes a run that no other run of the queue precedes (higher priority
-- first, then the earlier queue time, then the smaller id), and leaves exactly the others.
pub pop-Pops : (q q' : Queue) (r : Run) → IsValid q → pop q ≡ some (r, q') → Pops q r q'
unfolding pop
pop-Pops q q' r v h = go (sort_runs (values q.items)) refl h
  where
    go :
        (xs : List Run)
        → sort_runs (values q.items) ≡ xs
        → take_first q xs ≡ some (r, q')
        → Pops q r q'
    go [] e h = cc
    go (s ∷ rest) e h =
        subst (λ p. Pops q p.0 p.1) (some-injective _ _ h)
          (record {
            held = value-lookup q.items s v.distinct v.keyed (first_listed q.items s rest e);
            first = λ k other found. not_preceded other s (
                lookup-holds (λ y. runs_before y s) q.items k other
                  (first_of_sorted (values q.items) s rest e) found);
            gone = lookup-erase_self s.id q.items v.distinct;
            rest = λ k ne. lookup-erase_ne k s.id q.items ne;
            valid = record {
              distinct = erase-IsMap s.id q.items v.distinct;
              keyed = erase-keyed s.id q.items v.keyed;
            };
          })

-- A push into a valid queue keeps it valid; the run is found under its id and every other entry is as it
-- was. A run with an empty id is not taken.
pub push-stores :
    (q : Queue) (r : Run)
    → IsValid q
    → IsValid (push q r)
      × (r.id ≢ "" → lookup r.id (push q r).items ≡ some r)
      × ((k : String) → k ≢ r.id → lookup k (push q r).items ≡ lookup k q.items)
      × (r.id ≡ "" → push q r ≡ q)
unfolding push
push-stores q r v = (
  elim (Bool-cases (r.id == "")) [
    | inl e ↦ rw e v
    | inr e ↦ rw e (record {
      distinct = insert-IsMap r.id r q.items v.distinct;
      keyed = insert-keyed r.id r q.items refl v.keyed;
    })
  ],
  λ ne. ground (arith, lookup-insert_self r.id r q.items),
  λ k ne. ground (arith, lookup-insert_ne k r.id r q.items ne),
  λ e. ground arith,
)

length-erase :
    (m : Map Run) (k : String) (r : Run) → lookup k m ≡ some r → length m ≡ suc (length (erase k m))
length-erase [] k r h = cc
length-erase (e ∷ m) k r h = ground (arith, length-erase m k r)

sort_runs-ne-nil : (x : Run) (xs : List Run) → sort_runs (x ∷ xs) ≢ []
unfolding sort_runs
sort_runs-ne-nil x xs = sort-ne-nil runs_before x xs

abbrev Shortens : Queue → Type 0
Shortens q =
    ((pop q ≡ none) × (len q ≡ 0))
    ⊎ ((r : Run) × (q' : Queue) × (pop q ≡ some (r, q')) × (len q ≡ suc (len q')))

-- A pop from a valid queue fails exactly on the empty queue, and otherwise shortens it by one.
len-pop : (q : Queue) → IsValid q → Shortens q
unfolding pop len
len-pop q v = go q.items (sort_runs (values q.items)) refl refl
  where
    go : (m : Map Run) (xs : List Run) → q.items ≡ m → sort_runs (values q.items) ≡ xs → Shortens q
    go [] [] em e = inl (rw e, rw em)
    go (x ∷ m) [] em e =
        absurd (sort_runs-ne-nil x.1 (values m) (cc (ap (λ i. sort_runs (values i)) em)))
    go m (s ∷ rest) em e = inr (
      s,
      record q { items = erase s.id q.items },
      rw e,
      length-erase q.items s.id s
          (value-lookup q.items s v.distinct v.keyed (first_listed q.items s rest e)),
    )
