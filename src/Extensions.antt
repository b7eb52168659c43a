-- ===== src/Extensions.antt =====
-- The extensions package, packages/extensions/src.
pub mod Texts
pub mod Code
pub mod Reading
pub mod ManifestSchema
pub mod ManifestCheck
pub mod Paths
pub mod Hosts
pub mod ManifestSound
pub mod Archive
pub mod Manifest
pub mod Expansion
pub mod Revocation
mod Tests
