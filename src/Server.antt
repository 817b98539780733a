-- ===== src/Server.antt =====
-- services/server_client.py
pub mod Defs
pub mod Delivery
unfoldable pub use Defs.*
