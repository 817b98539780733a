-- ===== src/Tokens.antt =====
-- services/tokens.py: the agent's identity and its one token.
pub mod Defs
pub mod Hash
pub mod Verify
pub mod Spec
pub mod Refinement
pub mod History
pub mod Kept
pub mod Tests
unfoldable pub use Defs.*
