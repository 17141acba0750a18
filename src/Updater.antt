-- ===== src/Updater.antt =====
-- crates/pam-desktop-shell/src/updater.rs: how an update is found, downloaded and put in place.
pub mod Disk
pub mod Swap
pub mod Versions
pub mod Errors
pub mod Hex
pub mod State
pub mod Download
pub mod Feed
mod Tests
pub mod Bundle
pub mod Helper
