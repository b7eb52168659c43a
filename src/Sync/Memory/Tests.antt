-- ===== src/Sync/Memory/Tests.antt =====
-- Runs of `MemorySyncRepository` (services/sync/src/memoryRepository.ts) on concrete calls, and the
-- theorems at them.
pub mod Data
mod Pushing
mod Enrolled
mod Keyed
