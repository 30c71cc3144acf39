-- ===== src/Glasses.antt =====
-- glasses/: the app on the glasses, which runs in the host app of their maker.
pub mod Display
pub mod Storage
pub mod PairingForm
pub mod Controller
mod Examples
