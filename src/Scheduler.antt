-- ===== src/Scheduler.antt =====
-- internal/scheduler: types.go, and the parts of the scheduler in its children.
pub mod Types
pub mod Filter
pub mod Score
pub mod Queue
pub mod Service
mod Tests
