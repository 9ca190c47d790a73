-- ===== src/Platform/Linux.antt =====
-- crates/platform-linux.
pub mod Keymap
