-- ===== src/Budget.antt =====
-- budget/budget.go.
pub mod Limits
pub mod Cgroup
pub mod Cpu
pub mod Detect
mod Tests
