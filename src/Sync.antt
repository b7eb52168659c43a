-- ===== src/Sync.antt =====
-- services/sync: the encrypted-sync service.
pub mod Models
pub mod Memory
pub mod Client
pub mod Clock
pub mod Blobs
pub mod Requests
pub mod Manager
