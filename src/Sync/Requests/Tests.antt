-- ===== src/Sync/Requests/Tests.antt =====
-- Requests to services/sync/src/requestHandler.ts on concrete values.
mod Data
mod Answered
