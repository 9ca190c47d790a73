-- ===== src/Files.antt =====
-- crates/mouser-files: the transfer of files.
pub mod Types
pub mod Path
pub mod Sink
pub mod Sender
pub mod Receiver
pub mod Transfer
pub mod Tests
pub mod RunTests
