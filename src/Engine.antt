-- ===== src/Engine.antt =====
-- crates/mouser-engine: the engine core.
pub mod Types
pub mod Geometry
pub mod State
pub mod Machine
pub mod Transfer
pub mod Wire
pub mod Events
pub mod Invariant
pub mod Replay
pub mod Injection
pub mod Once
pub mod Screen
pub mod Capture
pub mod Handoff
pub mod Silence
pub mod Tests
