-- ===== src/Platform.antt =====
-- The parts of the platform backends that compute without the platform.
pub mod Keys
pub mod Linux
pub mod Mac
pub mod Windows
pub mod Parity
pub mod Tests
