-- ===== src/Resolver.antt =====
-- packages/core/src/resolver: DNS messages on a byte stream, and the client of plain DNS servers;
-- the in-memory authority.
pub mod Stream
pub mod Addr
pub mod Auth
pub mod Memory
