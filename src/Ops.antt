-- ===== src/Ops.antt =====
-- packages/ops: completeness of a case, operating modes, preflight and case matching.
pub mod Completeness
pub mod Modes
pub mod Preflight
pub mod Matching
mod Tests
