-- ===== src/Cli.antt =====
-- cli.py: the token commands.
pub mod Defs
pub mod Sessions
pub mod Create
mod Tests
