-- ===== src/Tools.antt =====
-- The two tools that put load on the broker: tools/epsub.c and tools/eppub.c.
pub mod Publishing
pub mod Report
pub mod Thread
pub mod Load
pub mod Measure
pub mod Polling
pub mod Publisher
mod Tests
