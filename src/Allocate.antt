-- ===== src/Allocate.antt =====
-- allocate/allocate.go.
pub mod Types
pub mod Rows
pub mod Trim
pub mod Floors
pub mod Demand
pub mod Want
pub mod Spare
pub mod Compute
mod Tests
