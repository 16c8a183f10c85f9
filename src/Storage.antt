-- ===== src/Storage.antt =====
-- storage/: the stores of the service.
pub mod Cache
pub mod Lance
pub mod Memories
pub mod Instincts
mod Examples
