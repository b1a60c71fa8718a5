-- ===== src/Dnssec.antt =====
-- packages/core/src/dnssec and zone/canonical.ts: canonical names, type bitmaps and denial of
-- existence.
pub mod Canonical
pub mod Denial
pub mod Nsec
pub mod Nsec3
pub mod SignerNames
pub mod Signer
pub mod Keys
pub mod SigCheck
pub mod SignedZone
