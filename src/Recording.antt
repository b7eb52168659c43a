-- ===== src/Recording.antt =====
-- The recording of shared tabs: apps/desktop/src/main/RecordingCoordinator.ts and
-- apps/desktop/src/shared/recordingPolicy.ts.
pub mod State
pub mod Messages
pub mod Control
pub mod Media
pub mod Quiet
pub mod Races
pub mod Invariant
mod Tests
