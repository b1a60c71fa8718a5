-- ===== src/Wire.antt =====
-- packages/core/src/wire: domain names, messages and RDATA in wire format.
pub mod Builder
pub mod Name
pub mod View
pub mod Message
pub mod RData
