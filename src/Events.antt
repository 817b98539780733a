-- ===== src/Events.antt =====
-- services/events.py
pub mod Defs
pub mod Outcome
pub mod Identity
pub mod Kept
pub mod Tests
unfoldable pub use Defs.*
