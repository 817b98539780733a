-- ===== src/Docker.antt =====
-- services/docker.py: the monitor's connection to the daemon, and what it reads of the containers.
pub mod Monitor
pub mod Collect
pub mod Ports
pub mod Stats
pub mod State
pub mod Listing
pub mod Documented
pub mod Bounds
pub mod Samples
mod Tests
pub use Monitor.{ConnectAnswers}
unfoldable pub use Monitor.{connect, close, collect, build_states}
