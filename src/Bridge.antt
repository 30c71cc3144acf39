-- ===== src/Bridge.antt =====
-- bridge/: the backend of the companion.
pub mod State
pub mod Store
pub mod Ids
pub mod SessionKey
pub mod AccessTokens
pub mod Services
pub mod RateLimit
pub mod Ingest
pub mod OpenClaw
pub mod Relay
pub mod Server
pub mod History
mod Examples
