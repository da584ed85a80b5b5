-- ===== src/Lease/Held.antt =====
-- Which runs hold a reservation on one server after the scripts of internal/store/redis/lease.go, and the keys of all
-- servers.
use mathlib.Core.Path.{subst}
use konzhitai.Prelude.{
  ◌≡◌, ◌≢◌, sym, ap, Bool, true, false, String, String_discrete, none, some, lookup, string_eq,
  lookup-erase_ne, lookup-erase_self, List, [], ◌∷◌, arith, ℕ,
}
use konzhitai.Task.{Resources}
use konzhitai.Lease.Scripts.{
  Server, forget, forget_all, expired, purge, reserve_in, reserve, release,
}
use konzhitai.Lease.Invariant.{IsBalanced}
use konzhitai.Lease.Store.{Redis, write}

-- The run has amounts on the server.
abbrev pub is_held : String → Server → Bool
is_held run_id s = elim (lookup run_id s.amounts) [ none ↦ false | some _ ↦ true ]

is_held-forget : (j k : String) (s : Server) → is_held j s ≡ false → is_held j (forget k s) ≡ false
unfolding forget
is_held-forget j k s h = elim (String_discrete j k) [
  | yes e ↦ ground (arith, h, ap (λ i. lookup i s.amounts) e)
  | no ne ↦ ground (arith, h, lookup-erase_ne j k s.amounts ne)
]

forgotten : (k : String) (s : Server) → IsBalanced s → is_held k (forget k s) ≡ false
unfolding forget
forgotten k s b = ground (arith, lookup-erase_self k s.amounts b.distinct)

forget_all-free :
    (j : String) (ks : List String) (s : Server)
    → is_held j s ≡ false
    → is_held j (forget_all ks s) ≡ false
forget_all-free j [] s h = h
forget_all-free j (k ∷ ks) s h = forget_all-free j ks (forget k s) (is_held-forget j k s h)

purge-free :
    (j : String) (now : ℕ) (s : Server) → is_held j s ≡ false → is_held j (purge now s) ≡ false
unfolding purge
purge-free j now s h = forget_all-free j (expired now s.expirations) s h

-- A script that refuses leaves the run without a reservation.
refused_in :
    (r : String) (required available : Resources) (t : ℕ) (id : String) (s : Server)
    → (reserve_in r required available t id s).1 ≡ false
    → is_held r s ≡ false
    → is_held r (reserve_in r required available t id s).0 ≡ false
unfolding reserve_in
refused_in r required available t id s h f = ground (arith, h, f)

pub reserve-refused :
    (now : ℕ) (r : String) (required available : Resources) (t : ℕ) (id : String) (s : Server)
    → (reserve now r required available t id s).1 ≡ false
    → is_held r s ≡ false
    → is_held r (reserve now r required available t id s).0 ≡ false
unfolding reserve
reserve-refused now r required available t id s h f =
    refused_in r required available t id (purge now s) h (purge-free r now s f)

pub release-free : (k : String) (s : Server) → IsBalanced s → is_held k (release k s) ≡ false
unfolding release
release-free k s b = forgotten k s b

abbrev pub AllBalanced : Redis → Type 0
AllBalanced r = (v : String) → IsBalanced (r.servers v)

pub write_self : (id : String) (s : Server) (r : Redis) → (write id s r).servers id ≡ s
write_self id s r = ground arith

pub write_other :
    (id v : String) (s : Server) (r : Redis) → v ≢ id → (write id s r).servers v ≡ r.servers v
write_other id v s r ne = ground (arith, ne)

pub write-AllBalanced :
    (id : String) (s : Server) (r : Redis)
    → IsBalanced s
    → AllBalanced r
    → AllBalanced (write id s r)
write-AllBalanced id s r b h v = elim (String_discrete v id) [
  | yes e ↦
      subst (λ i. IsBalanced ((write id s r).servers i)) (sym e)
        (subst IsBalanced (sym (write_self id s r)) b)
  | no ne ↦ subst IsBalanced (sym (write_other id v s r ne)) (h v)
]
