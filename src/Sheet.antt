-- ===== src/Sheet.antt =====
-- src/api/services/sheetPagination.ts: reading a sheet page by page.
pub mod Key
pub mod Page
