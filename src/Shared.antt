-- ===== src/Shared.antt =====
-- packages/shared/src/b64.ts and hash.ts: encodings and comparisons that the other packages share.
pub mod B64
pub mod B64Laws
pub mod Hash
pub mod HashLaws
mod Tests
