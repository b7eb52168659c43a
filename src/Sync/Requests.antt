-- ===== src/Sync/Requests.antt =====
-- services/sync/src/requestHandler.ts, requestSupport.ts and requestContract.ts: the HTTP handler of the
-- sync service over the repository of `Sync.Memory`.
pub mod Values
pub mod Support
pub mod Checks
pub mod Schemas
pub mod Effects
pub mod Records
pub mod Keys
pub mod Ceremonies
pub mod Verification
pub mod Enrollments
pub mod Handler
pub mod Rules
pub mod Keeping
pub mod Sound
pub mod Isolation
pub mod Gate
pub mod Revoked
pub mod Bounds
pub mod Errors
mod Tests
