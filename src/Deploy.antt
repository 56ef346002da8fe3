-- ===== src/Deploy.antt =====
-- infrastructure/fs and infrastructure/http: the keys and the settings of a machine, and the transport of
-- its exports.
pub mod Transport
pub mod Unsent
pub mod Keystore
pub mod Kept
pub mod Settings
pub mod Saved
