-- ===== src/Access.antt =====
-- src/api/services/grantRequestWithBots.ts and src/api/routes/accessRequests.ts: requests for access
-- to a document, and the grants that an approval makes.
pub mod Bots
pub mod Routes
