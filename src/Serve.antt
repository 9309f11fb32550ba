-- ===== src/Serve.antt =====
-- serve/: the history that the daemon keeps.
pub mod History
mod Tests
