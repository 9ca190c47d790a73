-- ===== src/Core.antt =====
-- crates/mouser-core: the pure decision machines, over device ids.
pub mod DeviceId
pub mod Ownership
pub mod Election
pub mod Tests
