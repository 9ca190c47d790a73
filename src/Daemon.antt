-- ===== src/Daemon.antt =====
-- crates/mouser-engine/src/daemon: the parts of the daemon that decide without I/O.
pub mod Reconnect
pub mod Tests
