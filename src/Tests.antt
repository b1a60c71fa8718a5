-- ===== src/Tests.antt =====
-- Runs on concrete inputs, and the theorems applied to them.
pub mod WireNames
pub mod WireMessages
pub mod Denial
pub mod Streams
pub mod Signing
pub mod Keys
pub mod Zones
pub mod Walks
pub mod Clients
pub mod Memory
