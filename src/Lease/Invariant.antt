-- ===== src/Lease/Invariant.antt =====
-- The counters of a server are the sums of what its runs hold, after any scripts.
use konzhitai.Prelude.{
  ℕ, ◌≡◌, refl, ◌↔◌, inl, inr, String, Map, lookup, insert, erase, IsMap, none, List, [], ◌∷◌,
  arith, string_eq, insert-IsMap, erase-IsMap, lookup-erase_self, lookup-erase_ne,
  lookup-insert_self, lookup-insert_ne, Option-cases, Bool-cases, String_discrete,
}
use konzhitai.Prelude.Int.{ℤ}
use konzhitai.Task.{Resources}
use konzhitai.Lease.Sums.{sum_by, sum_by-insert_new, sum_by-insert, sum_by-erase}
use konzhitai.Lease.Scripts.{
  Server, forget, expired, forget_all, purge, reserve_in, reserve, release, restore, exceeds,
  take_amounts,
}

abbrev pub cpu : Resources → ℤ
cpu r = r.cpu_millicores

abbrev pub memory : Resources → ℤ
memory r = r.memory_bytes

abbrev pub disk : Resources → ℤ
disk r = r.disk_bytes

pub record IsBalanced (s : Server) : Type 0 where
  pub cpu_sum : s.reserved.cpu_millicores ≡ sum_by cpu s.amounts
  pub memory_sum : s.reserved.memory_bytes ≡ sum_by memory s.amounts
  pub disk_sum : s.reserved.disk_bytes ≡ sum_by disk s.amounts
  pub distinct : IsMap s.amounts
  pub timed : IsMap s.expirations
  pub paired : (k : String) → (lookup k s.amounts ≡ none) ↔ (lookup k s.expirations ≡ none)

erase-paired :
    (r k : String) (m : Map Resources) (n : Map ℕ)
    → IsMap m
    → IsMap n
    → (lookup k m ≡ none) ↔ (lookup k n ≡ none)
    → (lookup k (erase r m) ≡ none) ↔ (lookup k (erase r n) ≡ none)
erase-paired r k m n dm dn p = elim (String_discrete k r) [
  | yes e ↦ rw e (λ _. lookup-erase_self r n dn, λ _. lookup-erase_self r m dm)
  | no ne ↦ rw (lookup-erase_ne k r m ne, lookup-erase_ne k r n ne) p
]

insert-paired :
    (r k : String) (a : Resources) (t : ℕ) (m : Map Resources) (n : Map ℕ)
    → (lookup k m ≡ none) ↔ (lookup k n ≡ none)
    → (lookup k (insert r a m) ≡ none) ↔ (lookup k (insert r t n) ≡ none)
insert-paired r k a t m n p = elim (String_discrete k r) [
  | yes e ↦ rw (e, lookup-insert_self r a m, lookup-insert_self r t n) (λ h. cc, λ h. cc)
  | no ne ↦ rw (lookup-insert_ne k r a m ne, lookup-insert_ne k r t n ne) p
]

erase-absent {ℓ} : {V : Type ℓ} (k : String) (m : Map V) → lookup k m ≡ none → erase k m ≡ m
erase-absent k [] h = refl
erase-absent k (e ∷ m) h = ground (arith, erase-absent k m)

pub forget-IsBalanced : (r : String) (s : Server) → IsBalanced s → IsBalanced (forget r s)
unfolding forget
forget-IsBalanced r s b = elim (Option-cases (lookup r s.amounts)) [
  | inl e ↦
      rw (e, forget)
        (record {
          cpu_sum = b.cpu_sum;
          memory_sum = b.memory_sum;
          disk_sum = b.disk_sum;
          distinct = b.distinct;
          timed = erase-IsMap r s.expirations b.timed;
          paired = λ k. rw (erase-absent r s.expirations ((b.paired r).0 e)) (b.paired k);
        })
  | inr (a, e) ↦
      rw (e, forget)
        (record {
          cpu_sum = ground (arith, sum_by-erase cpu r a s.amounts e, b.cpu_sum);
          memory_sum = ground (arith, sum_by-erase memory r a s.amounts e, b.memory_sum);
          disk_sum = ground (arith, sum_by-erase disk r a s.amounts e, b.disk_sum);
          distinct = erase-IsMap r s.amounts b.distinct;
          timed = erase-IsMap r s.expirations b.timed;
          paired = λ k. erase-paired r k s.amounts s.expirations b.distinct b.timed (b.paired k);
        })
]

forget_all-IsBalanced :
    (rs : List String) (s : Server) → IsBalanced s → IsBalanced (forget_all rs s)
forget_all-IsBalanced [] s b = b
forget_all-IsBalanced (r ∷ rs) s b = forget_all-IsBalanced rs (forget r s) (forget-IsBalanced r s b)

pub purge-IsBalanced : (now : ℕ) (s : Server) → IsBalanced s → IsBalanced (purge now s)
unfolding purge
purge-IsBalanced now s b = forget_all-IsBalanced (expired now s.expirations) s b

pub take-IsBalanced :
    (r : String) (a : Resources) (t : ℕ) (id : String) (s : Server)
    → lookup r s.amounts ≡ none
    → IsBalanced s
    → IsBalanced (take_amounts r a t id s)
take-IsBalanced r a t id s e b = record {
  cpu_sum = ground (arith, sum_by-insert_new cpu r a s.amounts e, b.cpu_sum);
  memory_sum = ground (arith, sum_by-insert_new memory r a s.amounts e, b.memory_sum);
  disk_sum = ground (arith, sum_by-insert_new disk r a s.amounts e, b.disk_sum);
  distinct = insert-IsMap r a s.amounts b.distinct;
  timed = insert-IsMap r t s.expirations b.timed;
  paired = λ k. insert-paired r k a t s.amounts s.expirations (b.paired k);
}

pub reserve_in-IsBalanced :
    (r : String) (required available : Resources) (t : ℕ) (id : String) (s : Server)
    → IsBalanced s
    → IsBalanced (reserve_in r required available t id s).0
unfolding reserve_in
reserve_in-IsBalanced r required available t id s b = elim (Option-cases (lookup r s.amounts)) [
  | inr (a, e) ↦ rw (e, reserve_in) b
  | inl e ↦
      rw (e, reserve_in)
        (elim (Bool-cases (exceeds required available s.reserved)) [
          | inl full ↦ rw full b
          | inr fits ↦ rw fits (take-IsBalanced r required t id s e b)
        ])
]

pub reserve-IsBalanced :
    (now : ℕ) (r : String) (required available : Resources) (t : ℕ) (id : String) (s : Server)
    → IsBalanced s
    → IsBalanced (reserve now r required available t id s).0
unfolding reserve
reserve-IsBalanced now r required available t id s b =
    reserve_in-IsBalanced r required available t id (purge now s) (purge-IsBalanced now s b)

pub release-IsBalanced : (r : String) (s : Server) → IsBalanced s → IsBalanced (release r s)
unfolding release
release-IsBalanced r s b =
    let f = forget-IsBalanced r s b in
    record {
      cpu_sum = f.cpu_sum;
      memory_sum = f.memory_sum;
      disk_sum = f.disk_sum;
      distinct = f.distinct;
      timed = f.timed;
      paired = f.paired;
    }

pub restore-IsBalanced :
    (r : String) (a : Resources) (t : ℕ) (id : String) (s : Server)
    → IsBalanced s
    → IsBalanced (restore r a t id s)
unfolding restore
restore-IsBalanced r a t id s b = elim (Option-cases (lookup r s.amounts)) [
  | inl e ↦ rw e (take-IsBalanced r a t id s e b)
  | inr (old, e) ↦ rw e (record {
    cpu_sum = ground (arith, sum_by-insert cpu r a old s.amounts e, b.cpu_sum);
    memory_sum = ground (arith, sum_by-insert memory r a old s.amounts e, b.memory_sum);
    disk_sum = ground (arith, sum_by-insert disk r a old s.amounts e, b.disk_sum);
    distinct = insert-IsMap r a s.amounts b.distinct;
    timed = insert-IsMap r t s.expirations b.timed;
    paired = λ k. insert-paired r k a t s.amounts s.expirations (b.paired k);
  })
]
