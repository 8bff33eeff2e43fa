-- ===== src/Companion.antt =====
-- What the external source companions share: filedge/companion/.
pub mod Manifest
pub mod Promotion
pub mod Order
pub mod Staging
pub mod Deliver
