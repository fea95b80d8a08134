-- ===== src/Sales.antt =====
-- Sales: src/sales/sales.service.ts and src/sales/sale-cancellations.service.ts.
pub mod Shapes
pub mod Tenancy
pub mod Winning
pub mod Registration
pub mod Conversion
pub mod Updates
pub mod Cancellation
pub mod Refusals
pub mod Repeats
