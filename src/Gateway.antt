-- ===== src/Gateway.antt =====
-- apps/gateway: the store of events, packages, seals and certificates, and the server's
-- ingestion and sealing of events.
pub mod Samples
pub mod Store
pub mod Sealing
pub mod Ingest
pub mod Headers
pub mod Door
pub mod Report
pub mod Reported
pub mod Watch
pub mod Config
pub mod Configured
pub mod Settings
pub mod Saved
pub mod Activation
mod Tests
