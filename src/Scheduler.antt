-- ===== src/Scheduler.antt =====
-- services/scheduler.py: `AgentScheduler`.
pub mod Defs
pub mod Guard
pub mod Watched
pub mod Round
pub mod Containers
pub mod Survival
pub mod Kept
pub mod Tests
