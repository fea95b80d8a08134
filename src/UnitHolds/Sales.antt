-- ===== src/UnitHolds/Sales.antt =====
-- The sale service (src/sales/sales.service.ts, src/sales/sale-cancellations.service.ts), the
-- commercial invariant and the receivables account.
pub mod Counts
pub mod Winning
pub mod Registration
pub mod Conversion
pub mod Reading
pub mod Cancellation
pub mod Updates
