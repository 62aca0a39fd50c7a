-- ===== src/Bundle.antt =====
-- packages/evidence-bundle: evidence bundles, how they are built from events and verified.
pub mod Encode
pub mod Build
pub mod Verify
pub mod Integrity
pub mod Outcomes
pub mod Questions
mod Tests
