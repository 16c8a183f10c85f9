-- ===== src/Auth.antt =====
-- auth/: accounts, sessions and pairings.
pub mod Redis
pub mod DevicePairing
pub mod LoginFails
pub mod Local
pub mod Sessions
pub mod InstallPairing
