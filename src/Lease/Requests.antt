-- ===== src/Lease/Requests.antt =====
-- The methods of the lease store of internal/store/redis/lease.go on the keys of all servers: what a request that is
-- granted, refused or turned away leaves, and what a release does.
use mathlib.Core.Path.{subst}
use konzhitai.Prelude.{
  ◌≡◌, ◌≢◌, refl, sym, ◌∙◌, ap, Bool, true, false, not, ◌||◌, String, String_discrete, Option, some,
  Result, ok, err, if◌then◌else◌, ◌==◌, string_eq, arith,
}
use konzhitai.Clock.{Time, add, sub, is_zero}
use konzhitai.Prelude.Int.{pos, leb_ℤ}
use konzhitai.Scheduler.Types.{Lease, LeaseRequest, Error, invalid_lease_request, failure}
use konzhitai.Lease.Scripts.{Server, reserve, release, restore}
use konzhitai.Lease.Invariant.{
  IsBalanced, reserve-IsBalanced, release-IsBalanced, restore-IsBalanced,
}
use konzhitai.Lease.Store.{
  Redis, write, unix_milli, granted, valid_request, none_positive, try_reserve, release_lease,
  restore_lease,
}
use konzhitai.Lease.Held.{
  is_held, reserve-refused, release-free, AllBalanced, write_self, write_other, write-AllBalanced,
}

-- The three ways of a request: it is turned away and nothing changes, the script refuses, or it grants.
abbrev reserved_by : String → LeaseRequest → Redis → Server × Bool
reserved_by id q r =
    reserve (unix_milli q.now) q.run_id q.required q.available (unix_milli (add q.now q.ttl)) id
      (r.servers q.server_id)

try_reserve-ind :
    (id : String) (q : LeaseRequest) (r : Redis) (P : Result Error (Option Lease) × Redis → Type 0)
    → ((e : Error) → P (err e, r))
    → (r.up ≡ true → valid_request q ≡ true → P (granted id q r (reserved_by id q r)))
    → P (try_reserve id q r)
unfolding try_reserve
try_reserve-ind id q r P turned run = step (valid_request q) r.up refl refl
  where
    step :
        (b c : Bool)
        → valid_request q ≡ b
        → r.up ≡ c
        → P (
            if not b
            then (err invalid_lease_request, r)
            else if not c
            then (err (failure "eval"), r)
            else granted id q r (reserved_by id q r))
    step false c p u = turned invalid_lease_request
    step true false p u = turned (failure "eval")
    step true true p u = run u p

pub try_reserve-AllBalanced :
    (id : String) (q : LeaseRequest) (r : Redis)
    → AllBalanced r
    → AllBalanced (try_reserve id q r).1
try_reserve-AllBalanced id q r h =
    try_reserve-ind id q r (λ x. AllBalanced x.1) (λ e. h)
      λ u p. step (reserved_by id q r) (
        reserve-IsBalanced (unix_milli q.now) q.run_id q.required q.available
          (unix_milli (add q.now q.ttl)) id (r.servers q.server_id) (h q.server_id))
  where
    step : (x : Server × Bool) → IsBalanced x.0 → AllBalanced (granted id q r x).1
    step (s, false) b = write-AllBalanced q.server_id s r b h
    step (s, true) b = write-AllBalanced q.server_id s r b h

pub try_reserve-refused :
    (id : String) (q : LeaseRequest) (r : Redis) (v : String)
    → ((l : Lease) → (try_reserve id q r).0 ≢ ok (some l))
    → is_held q.run_id (r.servers v) ≡ false
    → is_held q.run_id ((try_reserve id q r).1.servers v) ≡ false
try_reserve-refused id q r v =
    try_reserve-ind id q r
      (λ x.
        ((l : Lease) → x.0 ≢ ok (some l))
        → is_held q.run_id (r.servers v) ≡ false
        → is_held q.run_id (x.1.servers v) ≡ false)
      (λ e no h. h)
      λ u p no h. step (reserved_by id q r) no h (λ k.
        reserve-refused (unix_milli q.now) q.run_id q.required q.available
          (unix_milli (add q.now q.ttl)) id (r.servers q.server_id) k)
  where
    step :
        (x : Server × Bool)
        → ((l : Lease) → (granted id q r x).0 ≢ ok (some l))
        → is_held q.run_id (r.servers v) ≡ false
        → (x.1 ≡ false
            → is_held q.run_id (r.servers q.server_id) ≡ false
            → is_held q.run_id x.0 ≡ false)
        → is_held q.run_id ((granted id q r x).1.servers v) ≡ false
    step (s, true) ungranted h k = absurd (ungranted _ refl)
    step (s, false) ungranted h k = elim (String_discrete v q.server_id) [
      | yes e ↦
          subst (λ i. is_held q.run_id ((write q.server_id s r).servers i) ≡ false) (sym e)
            (ap (is_held q.run_id) (write_self q.server_id s r)
              ∙ k refl (subst (λ i. is_held q.run_id (r.servers i) ≡ false) e h))
      | no ne ↦ ap (is_held q.run_id) (write_other q.server_id v s r ne) ∙ h
    ]

-- A granted lease is for the run and the server of a valid request, and Redis answered.
pub record Grants (q : LeaseRequest) (l : Lease) (r : Redis) : Type 0 where
  pub same_run : l.run_id ≡ q.run_id
  pub same_server : l.server_id ≡ q.server_id
  pub answered : r.up ≡ true
  pub valid : valid_request q ≡ true

pub try_reserve-Grants :
    (id : String) (q : LeaseRequest) (r : Redis) (l : Lease)
    → (try_reserve id q r).0 ≡ ok (some l)
    → Grants q l r
try_reserve-Grants id q r l =
    try_reserve-ind id q r (λ x. x.0 ≡ ok (some l) → Grants q l r)
      (λ e p. absurd (ground (arith, p))) λ u v p. step (reserved_by id q r) u v p
  where
    step :
        (x : Server × Bool)
        → r.up ≡ true
        → valid_request q ≡ true
        → (granted id q r x).0 ≡ ok (some l)
        → Grants q l r
    step (s, false) u v p = absurd (ground (arith, p))
    step (s, true) u v p = record {
      same_run = ground (arith, p);
      same_server = ground (arith, p);
      answered = u;
      valid = v;
    }

-- A request for one server leaves the others as they are.
pub try_reserve-elsewhere :
    (id : String) (q : LeaseRequest) (r : Redis) (v : String)
    → v ≢ q.server_id
    → (try_reserve id q r).1.servers v ≡ r.servers v
try_reserve-elsewhere id q r v ne =
    try_reserve-ind id q r (λ x. x.1.servers v ≡ r.servers v) (λ e. refl)
      λ u p. step (reserved_by id q r)
  where
    step : (x : Server × Bool) → (granted id q r x).1.servers v ≡ r.servers v
    step (s, false) = write_other q.server_id v s r ne
    step (s, true) = write_other q.server_id v s r ne

-- A release that succeeds has run its script.
release_lease-ind :
    (l : Lease) (r : Redis) (P : Result Error (Unit {0}) × Redis → Type 0)
    → ((e : Error) → P (err e, r))
    → P (ok tt, write l.server_id (release l.run_id (r.servers l.server_id)) r)
    → P (release_lease l r)
unfolding release_lease
release_lease-ind l r P turned run = step (l.run_id == "" || l.server_id == "") r.up
  where
    step :
        (b c : Bool)
        → P (
            if b
            then (err invalid_lease_request, r)
            else if not c
            then (err (failure "eval"), r)
            else (ok tt, write l.server_id (release l.run_id (r.servers l.server_id)) r))
    step true c = turned invalid_lease_request
    step false false = turned (failure "eval")
    step false true = run

pub release_lease-AllBalanced :
    (l : Lease) (r : Redis) → AllBalanced r → AllBalanced (release_lease l r).1
release_lease-AllBalanced l r h =
    release_lease-ind l r (λ x. AllBalanced x.1) (λ e. h)
      (write-AllBalanced l.server_id (release l.run_id (r.servers l.server_id)) r
        (release-IsBalanced l.run_id (r.servers l.server_id) (h l.server_id)) h)

pub release_lease-free :
    (l : Lease) (r : Redis)
    → AllBalanced r
    → (release_lease l r).0 ≡ ok tt
    → is_held l.run_id ((release_lease l r).1.servers l.server_id) ≡ false
release_lease-free l r h =
    release_lease-ind l r (λ x. x.0 ≡ ok tt → is_held l.run_id (x.1.servers l.server_id) ≡ false)
      (λ e p. absurd (ground (arith, p)))
      λ p.
        ap (is_held l.run_id) (write_self l.server_id (release l.run_id (r.servers l.server_id)) r)
        ∙ release-free l.run_id (r.servers l.server_id) (h l.server_id)

pub release_lease-elsewhere :
    (l : Lease) (r : Redis) (v : String)
    → v ≢ l.server_id
    → (release_lease l r).1.servers v ≡ r.servers v
release_lease-elsewhere l r v ne =
    release_lease-ind l r (λ x. x.1.servers v ≡ r.servers v) (λ e. refl)
      (write_other l.server_id v (release l.run_id (r.servers l.server_id)) r ne)

-- What was granted can be released as long as Redis answers.
pub release_lease-granted :
    (q : LeaseRequest) (l : Lease) (r r' : Redis)
    → Grants q l r
    → r'.up ≡ r.up
    → (release_lease l r').0 ≡ ok tt
unfolding release_lease valid_request
release_lease-granted q l r r' g u =
    ground (arith, g.same_run, g.same_server, g.answered, g.valid, u)

pub restore_lease-AllBalanced :
    (l : Lease) (now : Time) (r : Redis) → AllBalanced r → AllBalanced (restore_lease l now r).1
unfolding restore_lease
restore_lease-AllBalanced l now r h =
    step
      (l.id == ""
        || l.run_id == ""
        || l.server_id == ""
        || is_zero now
        || none_positive l.resources)
      (leb_ℤ (sub l.expires_at now) (pos 0)) r.up
  where
    Safe : Result Error (Unit {0}) × Redis → Type 0
    Safe x = AllBalanced x.1

    restored : Server
    restored = restore l.run_id l.resources (unix_milli l.expires_at) l.id (r.servers l.server_id)

    step :
        (a b c : Bool)
        → Safe (
            if a
            then (err invalid_lease_request, r)
            else if b
            then (ok tt, r)
            else if not c
            then (err (failure "eval"), r)
            else (ok tt, write l.server_id restored r))
    step true b c = h
    step false true c = h
    step false false false = h
    step false false true =
        write-AllBalanced l.server_id restored r
          (restore-IsBalanced l.run_id l.resources (unix_milli l.expires_at) l.id
            (r.servers l.server_id) (h l.server_id))
          h
