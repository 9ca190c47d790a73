-- ===== src/Clipboard.antt =====
-- crates/mouser-clipboard: the transfer of clipboard contents.
pub mod Types
pub mod Reassembly
pub mod Pulls
pub mod Applied
pub mod Settings
pub mod Engine
pub mod Canonical
pub mod Offer
pub mod Session
pub mod Tests
pub mod SessionTests
