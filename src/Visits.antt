-- ===== src/Visits.antt =====
-- Sales visits: src/crm/sales-visit-transition.ts and src/crm/visits.service.ts.
pub mod Plan
pub mod Requests
pub mod Lifecycle
pub mod Steps
pub mod History
