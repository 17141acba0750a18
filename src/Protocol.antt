-- ===== src/Protocol.antt =====
-- crates/pam-desktop-protocol/src/lib.rs: the contracts between the host, the PHP worker and plugins.
pub mod Error
pub mod Codes
pub mod Grammar
pub mod Url
pub mod Capabilities
pub mod Updates
pub mod Manifest
pub mod Menu
pub mod Shell
pub mod Jobs
pub mod Plugins
pub mod Windows
pub mod Bootstrap
pub mod Envelopes
pub mod Tests
