-- ===== src/Monitor.antt =====
-- services/monitor.py: `SystemMonitor`.
pub mod Defs
pub mod Readings
pub mod Usage
pub mod Tests
