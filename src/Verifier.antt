-- ===== src/Verifier.antt =====
-- packages/core/src/verifier: names, proofs of absence, verdicts.
pub mod Names
pub mod Negative
pub mod Signed
pub mod Cache
pub mod Walk
pub mod Steps
pub mod Load
pub mod Ksks
pub mod Descent
pub mod Leaf
pub mod Chain
pub mod Verdict
