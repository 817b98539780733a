-- ===== src/Api.antt =====
-- api/*.py
pub mod Security
pub mod Routes
pub mod Health
pub mod Reports
pub mod Requests
pub mod Kept
pub mod Decisions
pub mod Tests
