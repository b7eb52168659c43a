-- ===== src/Policy.antt =====
-- Small decisions of the desktop application (apps/desktop/src/main), one file each.
pub mod Commands
pub mod Recovery
pub mod Attachments
pub mod Providers
mod Tests
