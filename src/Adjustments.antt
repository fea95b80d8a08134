-- ===== src/Adjustments.antt =====
-- Monetary adjustment: src/monetary-adjustment/monetary-adjustment.service.ts.
pub mod Apply
pub mod Account
