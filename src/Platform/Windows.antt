-- ===== src/Platform/Windows.antt =====
-- crates/platform-win.
pub mod Keymap
pub mod Text
