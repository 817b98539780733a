-- ===== src/Database.antt =====
-- database/models.py as rows, and what the services use of a SQLAlchemy session over SQLite.
pub mod Models
pub mod Session
pub mod Memory
pub mod Engines
pub use Models.*
unfoldable pub use Session.*
