-- ===== src/Sync/Memory.antt =====
-- services/sync/src/memoryRepository.ts: `MemorySyncRepository`, its state in `State` and its
-- methods by subject. `Invariant` holds what every method keeps.
pub mod State
pub mod Invariant
pub mod Records
pub mod Devices
pub mod Passkeys
pub mod Keys
pub mod Account
pub mod Reach
pub mod Tests
