-- ===== src/Matching.antt =====
-- The match of a unit with a client's interest (src/crm/unit-compatibility-score.ts).
pub mod Score
pub mod ScoreLaws
