-- ===== src/Upgrade.antt =====
-- internal/agentupgrade: plans that upgrade the agents of servers batch by batch, the coordinator
-- that drives a plan, and the service that creates, pauses, cancels and retries it.
pub mod Types
pub mod Version
pub mod Rollback
pub mod Coordinator
pub mod Service
mod Tests
