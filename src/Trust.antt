-- ===== src/Trust.antt =====
-- packages/trust/src: verdicts on packages, workflow badges and seal certificates.
pub mod Levels
pub mod Verdicts
pub mod Honest
pub mod Badges
pub mod Issued
pub mod Certificate
pub mod Sealed
mod Tests
