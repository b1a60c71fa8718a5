-- ===== src/Types.antt =====
-- packages/core/src/types: the registries of types, classes, codes and algorithms.
pub mod Table
pub mod RrType
pub mod Code
pub mod Algorithm
