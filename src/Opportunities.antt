-- ===== src/Opportunities.antt =====
-- Opportunities: the single writer of an opportunity's stage, src/crm/opportunity-stage.ts.
pub mod Stage
pub mod StageLaws
