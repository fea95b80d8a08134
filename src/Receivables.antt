-- ===== src/Receivables.antt =====
-- Receivables and their payments: src/receivables/receivables.service.ts.
pub mod Split
pub mod Payments
pub mod Ledger
pub mod Settlement
pub mod Keeps
pub mod Requests
pub mod Effects
pub mod Generation
pub mod Generated
pub mod Totals
pub mod Digits
pub mod Display
