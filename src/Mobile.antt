-- ===== src/Mobile.antt =====
-- mobile/: the companion app on the phone.
pub mod Session
pub mod Companion
pub mod PairingForm
mod Examples
