-- ===== src/Api/Security.antt =====
-- api/security.py
pub mod Defs
pub mod Access
unfoldable pub use Defs.{require_token}
