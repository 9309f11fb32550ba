-- ===== src/Apply.antt =====
-- apply/.
pub mod Decide
pub mod Damping
pub mod Disk
pub mod Transaction
pub mod Sections
pub mod Write
pub mod DropIn
pub mod Live
pub mod Run
pub mod Reconcile
mod Sample
mod Tests
