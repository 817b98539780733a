-- ===== src/Nats.antt =====
-- services/nats.py
pub mod State
pub mod Forward
pub mod Connection
pub mod Brokers
pub mod Queue
pub mod Settings
pub mod Subjects
mod SubjectTests
pub mod Drain
pub mod Interleaved
pub mod Delivery
pub mod Tests
pub mod Publish
pub mod Reach
pub mod Warnings
pub mod Named
unfoldable pub use State.*
unfoldable pub use Forward.*
pub use Connection.{Answers}
unfoldable pub use Connection.{connect_once, retry_loop, start_gateway, publish, close}
