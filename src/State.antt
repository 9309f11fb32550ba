-- ===== src/State.antt =====
-- state/.
pub mod Types
pub mod Store
pub mod Histogram
pub mod Cpu
pub mod CpuLoad
pub mod Sizing
pub mod Peak
pub mod Learn
pub mod Load
mod Tests
