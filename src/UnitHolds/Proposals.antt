-- ===== src/UnitHolds/Proposals.antt =====
-- The proposal service (src/proposals/proposals.service.ts) and the commercial invariant.
pub mod Counts
pub mod Expiry
pub mod Drafting
pub mod Winning
pub mod Acceptance
