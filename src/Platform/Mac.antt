-- ===== src/Platform/Mac.antt =====
-- crates/platform-mac.
pub mod Keymap
pub mod Modifiers
