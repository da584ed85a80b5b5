-- ===== src/Lease/Scheduling.antt =====
-- The scheduler over the lease store of internal/store/redis/lease.go, as cmd/scheduler/main.go puts them together. The
-- keys of all servers are balanced, and `up` tells whether Redis answers. The identifiers of leases come from the
-- source of the tokens.
use konzhitai.Prelude.{◌≡◌, ◌≢◌, refl, ◌∙◌, ap, Bool, false, String, Option, Result, ok}
use konzhitai.Task.{Run}
use konzhitai.Scheduler.Types.{Outcome, Lease, LeaseRequest, Error}
use konzhitai.Scheduler.Service.{Stores, Service}
use konzhitai.Scheduler.Service.Schedule.{schedule_one}
use konzhitai.Scheduler.Service.Leases.{LeaseLaws, Releases, schedule_one-no_leak}
use konzhitai.Lease.Scripts.{Server}
use konzhitai.Lease.Invariant.{IsBalanced}
use konzhitai.Lease.Store.{Redis, try_reserve, release_lease, restore_lease}
use konzhitai.Lease.Held.{is_held, AllBalanced}
use konzhitai.Lease.Requests.{
  try_reserve-AllBalanced, try_reserve-refused, try_reserve-Grants, try_reserve-elsewhere,
  release_lease-AllBalanced, release_lease-free, release_lease-elsewhere, release_lease-granted,
  restore_lease-AllBalanced,
}

pub record Keys : Type 0 where
  pub servers : String → Server
  pub balanced : (v : String) → IsBalanced (servers v)

module _ (up : Bool) (others : Stores) where
  abbrev pub State : Type 0
  State = Keys × others.State

  abbrev redis : Keys → Redis
  redis k = record { up = up; servers = k.servers }

  -- A call of another store, and a call of the lease store.
  abbrev beside {ℓ} : {A : Type ℓ} → (others.State → A × others.State) → State → A × State
  beside f (k, o) = ((f o).0, (k, (f o).1))

  abbrev with_keys :
      {A : Type 0} (f : Redis → A × Redis)
      → ((r : Redis) → AllBalanced r → AllBalanced (f r).1)
      → State
      → A × State
  with_keys f safe (k, o) = (
    (f (redis k)).0,
    (record { servers = (f (redis k)).1.servers; balanced = safe (redis k) k.balanced }, o),
  )

  abbrev reserve_keys : LeaseRequest → State → Result Error (Option Lease) × State
  reserve_keys q (k, o) =
      with_keys (try_reserve (others.new_token o).0 q)
        (try_reserve-AllBalanced (others.new_token o).0 q) (k, (others.new_token o).1)

  abbrev pub redis_stores : Stores
  redis_stores = record {
    State = State;
    now = beside others.now;
    new_token = beside others.new_token;
    get = λ i. beside (others.get i);
    list_queued = beside others.list_queued;
    count_active = λ i. beside (others.count_active i);
    assign = λ a. beside (others.assign a);
    expire = λ i t. beside (others.expire i t);
    set_queue_reason = λ i m. beside (others.set_queue_reason i m);
    snapshots = λ run. beside (others.snapshots run);
    try_reserve = reserve_keys;
    release = λ l. with_keys (release_lease l) (release_lease-AllBalanced l);
    raise_alert = λ e. beside (others.raise_alert e);
    retry_failed = λ t. beside (others.retry_failed t);
    list_released = λ t. beside (others.list_released t);
    list_active = λ t. beside (others.list_active t);
    restore = λ l t. with_keys (restore_lease l t) (restore_lease-AllBalanced l t);
  }

  abbrev pub holds_key : String → String → State → Bool
  holds_key r v w = is_held r (w.0.servers v)

  abbrev pub GetFinds : Type 0
  GetFinds = (i : String) (o : others.State) (run : Run) → (others.get i o).0 ≡ ok run → run.id ≡ i

  redis_laws : GetFinds → LeaseLaws redis_stores
  redis_laws finds = record {
    holds = holds_key;
    get_found = λ i w run h. finds i w.1 run h;
    refused = λ q w v h f. try_reserve-refused (others.new_token w.1).0 q (redis w.0) v h f;
    granted = λ q w l h.
        let g = try_reserve-Grants (others.new_token w.1).0 q (redis w.0) l h in
        (g.same_run, g.same_server);
    granted_elsewhere = λ q w v ne h.
        ap (is_held q.run_id) (try_reserve-elsewhere (others.new_token w.1).0 q (redis w.0) v ne)
        ∙ h;
    freed = λ l w h. release_lease-free l (redis w.0) w.0.balanced h;
    freed_elsewhere = λ l w r v ne. ap (is_held r) (release_lease-elsewhere l (redis w.0) v ne);
    now_keeps = λ r v w. refl;
    token_keeps = λ r v w. refl;
    get_keeps = λ r v i w. refl;
    count_keeps = λ r v i w. refl;
    assign_keeps = λ r v a w. refl;
    expire_keeps = λ r v i t w. refl;
    reason_keeps = λ r v i m w. refl;
    snapshots_keep = λ r v run w. refl;
    alert_keeps = λ r v e w. refl;
  }

  redis-Releases : Releases redis_stores
  redis-Releases q w w' l h =
      release_lease-granted q l (redis w.0) (redis w'.0)
        (try_reserve-Grants (others.new_token w.1).0 q (redis w.0) l h) refl

  -- Over the keys that the scripts keep, and a `Get` that answers with the run that was asked for: a run without
  -- amounts on a server has none there after `ScheduleOne`, on every path that does not end in `assigned`, whether
  -- Redis answers through the call or not at all, and whatever fails in the other stores.
  pub schedule_one-frees_keys :
      (finds : GetFinds) (run_id v : String) (s : Service redis_stores)
      → holds_key run_id v s.world ≡ false
      → (schedule_one redis_stores run_id s).0 ≢ Outcome.assigned
      → holds_key run_id v (schedule_one redis_stores run_id s).2.world ≡ false
  unfolding redis_laws
  schedule_one-frees_keys finds run_id v s h ne =
      schedule_one-no_leak redis_stores (redis_laws finds) redis-Releases v run_id s h ne
