-- ===== src/Lease/Limits.antt =====
-- What a reservation guarantees: no overcommitment, no stale holders, and a release that undoes it.
use konzhitai.Prelude.{
  ℕ, ◌≤◌, ◌<◌, ◌≡◌, ◌≢◌, refl, ◌∙◌, ◌⊎◌, inl, inr, true, false, String, Map, lookup, insert, erase,
  IsMap, none, some, List, [], ◌∷◌, arith, leb, string_eq, contains, lookup-erase_self,
  lookup-erase_ne, lookup-insert_self, Option-cases, Bool-cases, String_discrete,
}
use konzhitai.Prelude.Int.{ℤ, ◌≤ℤ◌, ltb_ℤ, plus, minus, plus_parts, minus_parts, int_laws}
use konzhitai.Task.{Resources}
use konzhitai.Lease.Sums.{sum_by}
use konzhitai.Lease.Scripts.{
  Server, forget, expired, forget_all, purge, reserve_in, reserve, release, restore, exceeds,
  take_amounts,
}
use konzhitai.Lease.Invariant.{
  IsBalanced, cpu, memory, disk, take-IsBalanced, purge-IsBalanced, forget-IsBalanced,
}

module _ {ℓ} {V : Type ℓ} where
  erase-insert_new :
      (k : String) (v : V) (m : Map V) → lookup k m ≡ none → erase k (insert k v m) ≡ m
  erase-insert_new k v [] h = ground arith
  erase-insert_new k v (e ∷ m) h = ground (arith, erase-insert_new k v m)

  erase-insert : (k : String) (v : V) (m : Map V) → erase k (insert k v m) ≡ erase k m
  erase-insert k v [] = ground arith
  erase-insert k v (e ∷ m) = ground (arith, erase-insert k v m)

  insert-insert : (k : String) (v w : V) (m : Map V) → insert k w (insert k v m) ≡ insert k w m
  insert-insert k v w [] = ground arith
  insert-insert k v w (e ∷ m) = ground (arith, insert-insert k v w m)

lookup-forget_ne :
    (r k : String) (s : Server)
    → k ≢ r
    → (lookup k (forget r s).expirations ≡ lookup k s.expirations)
      × (lookup k (forget r s).amounts ≡ lookup k s.amounts)
unfolding forget
lookup-forget_ne r k s ne = (
  ground (arith, lookup-erase_ne k r s.expirations ne),
  ground (arith, lookup-erase_ne k r s.amounts ne, lookup-erase_ne k r s.expirations ne),
)

lookup-forget_self :
    (r : String) (s : Server)
    → IsBalanced s
    → (lookup r (forget r s).expirations ≡ none) × (lookup r (forget r s).amounts ≡ none)
unfolding forget
lookup-forget_self r s b =
    ground
      (arith, lookup-erase_self r s.expirations b.timed, lookup-erase_self r s.amounts b.distinct)

-- A run that is forgotten stays so.
forgotten :
    (rs : List String) (k : String) (s : Server)
    → IsBalanced s
    → lookup k s.expirations ≡ none
    → lookup k (forget_all rs s).expirations ≡ none
forgotten [] k s b h = h
forgotten (r ∷ rs) k s b h =
    forgotten rs k (forget r s) (forget-IsBalanced r s b) (elim (String_discrete k r) [
      | yes e ↦ rw e ((lookup-forget_self r s b).0)
      | no ne ↦ (lookup-forget_ne r k s ne).0 ∙ h
    ])

lookup-forget_all :
    (rs : List String) (k : String) (s : Server)
    → IsBalanced s
    → ((contains rs k ≡ true) × (lookup k (forget_all rs s).expirations ≡ none))
      ⊎ ((contains rs k ≡ false)
          × (lookup k (forget_all rs s).expirations ≡ lookup k s.expirations)
          × (lookup k (forget_all rs s).amounts ≡ lookup k s.amounts))
lookup-forget_all [] k s b = inr (refl, refl, refl)
lookup-forget_all (r ∷ rs) k s b = elim (String_discrete k r) [
  | yes e ↦ inl (
    ground arith,
    rw e (forgotten rs r (forget r s) (forget-IsBalanced r s b) ((lookup-forget_self r s b).0)),
  )
  | no ne ↦ ground (
    arith,
    lookup-forget_all rs k (forget r s) (forget-IsBalanced r s b),
    lookup-forget_ne r k s ne,
  )
]

not_expired :
    (now : ℕ) (k : String) (m : Map ℕ) → lookup k m ≡ none → contains (expired now m) k ≡ false
not_expired now k [] h = refl
not_expired now k (e ∷ m) h = ground (arith, not_expired now k m)

contains-expired :
    (now t : ℕ) (k : String) (m : Map ℕ)
    → lookup k m ≡ some t
    → IsMap m
    → contains (expired now m) k ≡ leb t now
contains-expired now t k [] h d = cc
contains-expired now t k (e ∷ m) h d = elim (String_discrete k e.0) [
  | yes same ↦ ground (arith, not_expired now k m (rw same d.0))
  | no other ↦ ground (arith, contains-expired now t k m)
]

-- After the loop of reserveScript a run holds something exactly if it did before and its time is
-- still ahead, and then it holds what it held.
purge_lem :
    (now : ℕ) (k : String) (s : Server)
    → IsBalanced s
    → ((lookup k (purge now s).expirations ≡ none)
        × ((t : ℕ) → lookup k s.expirations ≡ some t → t ≤ now))
      ⊎ ((t : ℕ) × (lookup k s.expirations ≡ some t)
          × (now < t)
          × (lookup k (purge now s).expirations ≡ some t)
          × (lookup k (purge now s).amounts ≡ lookup k s.amounts))
unfolding purge
purge_lem now k s b = elim (Option-cases (lookup k s.expirations)) [
  | inl e ↦ inl (forgotten (expired now s.expirations) k s b e, λ t h. cc (e, h))
  | inr (t, e) ↦ step t e (contains-expired now t k s.expirations e b.timed)
]
  where
    step :
        (t : ℕ)
        → lookup k s.expirations ≡ some t
        → contains (expired now s.expirations) k ≡ leb t now
        → ((lookup k (forget_all (expired now s.expirations) s).expirations ≡ none)
            × ((u : ℕ) → lookup k s.expirations ≡ some u → u ≤ now))
          ⊎ ((u : ℕ) × (lookup k s.expirations ≡ some u)
              × (now < u)
              × (lookup k (forget_all (expired now s.expirations) s).expirations ≡ some u)
              × (lookup k (forget_all (expired now s.expirations) s).amounts ≡ lookup k s.amounts))
    step t e c = elim (lookup-forget_all (expired now s.expirations) k s b) [
      | inl (hit, gone) ↦ inl (gone, λ u h. ground arith)
      | inr (miss, same, held) ↦ inr (t, e, ground arith, same ∙ e, held)
    ]

-- The sums of what is held stay within what the request calls available.
pub record Within (s : Server) (available : Resources) : Type 0 where
  pub cpu_within : sum_by cpu s.amounts ≤ℤ available.cpu_millicores
  pub memory_within : sum_by memory s.amounts ≤ℤ available.memory_bytes
  pub disk_within : sum_by disk s.amounts ≤ℤ available.disk_bytes

fits_one : (q a r : ℤ) → ltb_ℤ (minus a r) q ≡ false → plus r q ≤ℤ a
fits_one q a r h = ground (arith, minus_parts a r, plus_parts r q)

fits :
    (required available reserved : Resources)
    → exceeds required available reserved ≡ false
    → (plus reserved.cpu_millicores required.cpu_millicores ≤ℤ available.cpu_millicores)
      × (plus reserved.memory_bytes required.memory_bytes ≤ℤ available.memory_bytes)
      × (plus reserved.disk_bytes required.disk_bytes ≤ℤ available.disk_bytes)
fits q a r h = (
  fits_one q.cpu_millicores a.cpu_millicores r.cpu_millicores (ground arith),
  fits_one q.memory_bytes a.memory_bytes r.memory_bytes (ground arith),
  fits_one q.disk_bytes a.disk_bytes r.disk_bytes (ground arith),
)

-- A reservation is granted only to a run that holds nothing, where the request fits.
granted_in :
    (r : String) (required available : Resources) (t : ℕ) (id : String) (p s' : Server)
    → reserve_in r required available t id p ≡ (s', true)
    → (lookup r p.amounts ≡ none)
      × (exceeds required available p.reserved ≡ false)
      × (s' ≡ take_amounts r required t id p)
unfolding reserve_in
granted_in r required available t id p s' h = elim (Option-cases (lookup r p.amounts)) [
  | inr (a, e) ↦ absurd (ground arith)
  | inl e ↦ elim (Bool-cases (exceeds required available p.reserved)) [
    | inl full ↦ absurd (ground arith)
    | inr free ↦ (e, free, ground arith)
  ]
]

take-Within :
    (r : String) (required available : Resources) (t : ℕ) (id : String) (p : Server)
    → IsBalanced (take_amounts r required t id p)
    → exceeds required available p.reserved ≡ false
    → Within (take_amounts r required t id p) available
take-Within r required available t id p b h =
    let (c, m, d) = fits required available p.reserved h in
    record {
      cpu_within = rw (← b.cpu_sum) c;
      memory_within = rw (← b.memory_sum) m;
      disk_within = rw (← b.disk_sum) d;
    }

-- A granted reservation records what was asked for, and with it all that the server's runs hold
-- together is within what the request calls available, in each of the three resources.
pub reserve_granted :
    (now : ℕ) (r : String) (required available : Resources) (t : ℕ) (id : String) (s s' : Server)
    → IsBalanced s
    → reserve now r required available t id s ≡ (s', true)
    → (lookup r s'.amounts ≡ some required)
      × (lookup r s'.expirations ≡ some t)
      × Within s' available
unfolding reserve
reserve_granted now r required available t id s s' b h =
    let p = purge now s in
    let (new, free, e) = granted_in r required available t id p s' h in
    rw e (
      lookup-insert_self r required p.amounts,
      lookup-insert_self r t p.expirations,
      take-Within r required available t id p
          (take-IsBalanced r required t id p new (purge-IsBalanced now s b)) free,
    )

release-take :
    (r : String) (a : Resources) (t : ℕ) (id : String) (p : Server)
    → IsBalanced p
    → lookup r p.amounts ≡ none
    → release r (take_amounts r a t id p) ≡ record p { leases = erase r p.leases }
unfolding release forget
release-take r a t id p b new = grind (
  int_laws,
  lookup-insert_self r a p.amounts,
  erase-insert_new r a p.amounts new,
  erase-insert_new r t p.expirations ((b.paired r).0 new),
  erase-insert r id p.leases,
)

-- Releasing a granted reservation restores the state behind the loop, but for the run's lease key.
pub release-reserve :
    (now : ℕ) (r : String) (required available : Resources) (t : ℕ) (id : String) (s s' : Server)
    → IsBalanced s
    → reserve now r required available t id s ≡ (s', true)
    → release r s' ≡ record (purge now s) { leases = erase r (purge now s).leases }
unfolding reserve
release-reserve now r required available t id s s' b h =
    let p = purge now s in
    let (new, _, e) = granted_in r required available t id p s' h in
    rw e (release-take r required t id p (purge-IsBalanced now s b) new)

-- Restoring the same lease twice is the same as restoring it once.
restore_twice :
    (r : String) (a : Resources) (t : ℕ) (id : String) (s : Server)
    → restore r a t id (restore r a t id s) ≡ restore r a t id s
unfolding restore
restore_twice r a t id s = grind (
  int_laws,
  lookup-insert_self r a s.amounts,
  insert-insert r a a s.amounts,
  insert-insert r t t s.expirations,
  insert-insert r id id s.leases,
)
