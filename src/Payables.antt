-- ===== src/Payables.antt =====
-- Payables: src/finance/payables.service.ts and src/finance/financial-setup.service.ts.
pub mod Setup
pub mod Defaults
pub mod Changes
pub mod Payments
pub mod Commissions
pub mod Due
pub mod Account
pub mod Keeps
pub mod RowKeeps
pub mod Updates
pub mod Sources
pub mod Effects
