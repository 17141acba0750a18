-- ===== src/Jobs.antt =====
-- crates/pam-desktop-shell/src/scheduler.rs: the background jobs of an application.
pub mod Journal
pub mod Retry
pub mod Run
pub mod Tests
