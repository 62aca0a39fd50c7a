-- ===== src/Runtime.antt =====
-- packages/runtime: the durable queue, the case log and the keys that suppress duplicates.
pub mod Idempotency
pub mod Queue
pub mod CaseLog
