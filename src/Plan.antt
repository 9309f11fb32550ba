-- ===== src/Plan.antt =====
-- plan/.
pub mod Types
pub mod Workload
pub mod Cpu
pub mod Pool
pub mod Reserve
pub mod Names
pub mod Build
pub mod CpuReport
pub mod Report
pub mod Round
mod Tests
