-- ===== src/Lease/Store.antt =====
-- The methods of LeaseStore: the checks of a request in Go, and the script behind them. `up` tells
-- whether Redis answers; where it does not, the call fails and nothing is changed.
use konzhitai.Prelude.{
  ℕ, ◌/◌, Bool, true, false, not, ◌||◌, String, Option, none, some, Result, ok, err, if◌then◌else◌,
  ◌==◌, string_eq,
}
use konzhitai.Prelude.Int.{pos, leb_ℤ, ltb_ℤ}
use konzhitai.Clock.{Time, add, sub, is_zero}
use konzhitai.Task.{Resources}
use konzhitai.Scheduler.Types.{Lease, LeaseRequest, Error, invalid_lease_request, failure}
use konzhitai.Lease.Scripts.{Server, reserve, release, restore}

pub record Redis : Type 0 where
  pub up : Bool
  pub servers : String → Server

-- `t.UnixMilli()`, counted from the zero time; the two origins lie whole seconds apart.
abbrev pub unix_milli : Time → ℕ
unix_milli t = t / 1_000_000

abbrev pub write : String → Server → Redis → Redis
write id s r = record r { servers = λ other. if other == id then s else r.servers other }

abbrev pub none_positive : Resources → Bool
none_positive r =
    leb_ℤ r.cpu_millicores (pos 0) || leb_ℤ r.memory_bytes (pos 0) || leb_ℤ r.disk_bytes (pos 0)

unfoldable pub valid_request : LeaseRequest → Bool
valid_request q = not (
    q.run_id == ""
    || q.server_id == ""
    || leb_ℤ q.ttl (pos 0)
    || is_zero q.now
    || none_positive q.required
    || (ltb_ℤ q.available.cpu_millicores (pos 0)
        || ltb_ℤ q.available.memory_bytes (pos 0)
        || ltb_ℤ q.available.disk_bytes (pos 0)))

abbrev pub granted :
    String → LeaseRequest → Redis → Server × Bool → Result Error (Option Lease) × Redis
granted lease_id q r (s, false) = (ok none, write q.server_id s r)
granted lease_id q r (s, true) = (
  ok (
      some (record {
        id = lease_id;
        run_id = q.run_id;
        server_id = q.server_id;
        resources = q.required;
        expires_at = add q.now q.ttl;
      })),
  write q.server_id s r,
)

-- `lease_id` is the fresh UUID.
unfoldable pub try_reserve : String → LeaseRequest → Redis → Result Error (Option Lease) × Redis
try_reserve lease_id q r =
    if not (valid_request q)
    then (err invalid_lease_request, r)
    else if not r.up
    then (err (failure "eval"), r)
    else granted lease_id q r (
        reserve (unix_milli q.now) q.run_id q.required q.available (unix_milli (add q.now q.ttl))
          lease_id (r.servers q.server_id))

unfoldable pub release_lease : Lease → Redis → Result Error (Unit {0}) × Redis
release_lease l r =
    if l.run_id == "" || l.server_id == ""
    then (err invalid_lease_request, r)
    else if not r.up
    then (err (failure "eval"), r)
    else (ok tt, write l.server_id (release l.run_id (r.servers l.server_id)) r)

unfoldable pub restore_lease : Lease → Time → Redis → Result Error (Unit {0}) × Redis
restore_lease l now r =
    if l.id == "" || l.run_id == "" || l.server_id == "" || is_zero now || none_positive l.resources
    then (err invalid_lease_request, r)
    else if leb_ℤ (sub l.expires_at now) (pos 0)
    then (ok tt, r)
    else if not r.up
    then (err (failure "eval"), r)
    else (
      ok tt,
      write l.server_id
          (restore l.run_id l.resources (unix_milli l.expires_at) l.id (r.servers l.server_id)) r,
    )
