-- ===== src/Protocol/Codes.antt =====
-- The integer discriminators of crates/pam-desktop-protocol/src/lib.rs.
pub mod Wire
pub mod Messages
pub mod Shell
pub mod Updates
pub mod Files
pub mod Processes
pub mod Laws
