-- ===== src/Lease.antt =====
-- internal/store/redis/lease.go: the reservations of one server, kept in Redis by three Lua
-- scripts. Each script runs as one step. The hash of counters is `reserved`, the hash of packed
-- amounts `amounts`, the sorted set `expirations`, and the lease key of a run `leases`.
pub mod Sums
pub mod Scripts
pub mod Invariant
pub mod Limits
pub mod Traces
pub mod Store
pub mod Held
pub mod Requests
pub mod Scheduling
mod Tests
