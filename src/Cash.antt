-- ===== src/Cash.antt =====
-- The books of the finance services together: src/receivables/receivables.service.ts,
-- src/finance/payables.service.ts and src/finance/bank-reconciliation.service.ts.
pub mod Tables
pub mod Journal
pub mod Books
pub mod Imports
pub mod Requests
pub mod Balance
pub mod Refinement
