-- ===== src/Reconciliation.antt =====
-- Bank reconciliation: src/finance/bank-reconciliation.service.ts.
pub mod Matching
pub mod Keeps
pub mod Import
pub mod Statements
pub mod Candidates
pub mod Offers
