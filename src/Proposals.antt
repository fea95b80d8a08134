-- ===== src/Proposals.antt =====
-- Sales proposals: src/proposals/proposals.service.ts.
pub mod Pricing
pub mod Expiry
pub mod Requests
pub mod Acceptance
pub mod PricingLaws
