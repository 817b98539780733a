-- ===== src/Application.antt =====
-- main.py: the start and the end of the agent.
pub mod Defs
pub mod Bootstrap
pub mod Lifespan
pub mod Activities
pub mod Kept
pub mod Touches
pub mod Tidy
pub mod Main
pub mod Named
pub mod Guarded
pub mod History
mod ServingTests
pub mod Tests
