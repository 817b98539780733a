-- ===== src/Docker/Documented.antt =====
-- What the daemon's API says that it answers about a container, as data and as JSON. `show` and
-- `stats` give many more fields, which the agent does not read.
pub mod Stats
pub mod Readings
pub mod Processor
pub mod Ports
pub mod Usage
pub mod Container
pub mod Build
pub mod Collect
