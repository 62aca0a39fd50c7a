-- ===== src/Connect.antt =====
-- packages/event-schema/src/validate.ts and normalize-webhook.ts, and apps/gateway/src/file-watch.ts: how events come
-- in from outside.
pub mod Validate
pub mod Accepted
pub mod Webhook
pub mod Untyped
pub mod Named
pub mod Normal
pub mod Samples
mod Tests
