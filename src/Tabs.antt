-- ===== src/Tabs.antt =====
-- What agents may do with tabs, and which tabs are put to sleep
-- (apps/desktop/src/main).
pub mod Access
pub mod Sleeping
