-- ===== src/Worker.antt =====
-- crates/pam-desktop-shell/src/worker.rs: the PHP worker, a child process that answers one request at
-- a time over its standard streams, and the supervisor that replaces it. Serialisation is a
-- parameter; what the process and the clock do during a request is an argument.
pub mod Error
pub mod Reader
pub mod Client
pub mod Supervisor
pub mod Tests
