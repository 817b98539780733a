-- ===== src/Domain.antt =====
-- domain/*.py and runtime.py: the messages that the agent handles, as pydantic holds them once they
-- are validated, and its runtime state.
pub mod Values
pub mod Messages
pub mod Runtime
pub mod Subject
mod Tests
pub use Values.*
unfoldable pub use Messages.*
unfoldable pub use Runtime.*
