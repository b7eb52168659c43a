-- ===== src/Sync/Requests/Keeping.antt =====
-- Every route of services/sync/src/requestHandler.ts, and so every request, keeps what satisfies `Rules`.
pub mod Routes
pub mod Sessions
pub mod Requests
