-- ===== src/Core.antt =====
-- packages/core/src/signing.ts and package-file.ts: signatures, and the files of sealed packages.
pub mod Signing
pub mod PackageFile
pub mod Authentic
pub mod Samples
mod Tests
