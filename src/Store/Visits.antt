-- ===== src/Store/Visits.antt =====
-- Sales visits: the enumerations and the row of prisma/schema.prisma.
use harpia_api.Prelude.{ℕ, Option, Text}

pub data SalesVisitStatus : Type 0 where
  agendada realizada cancelada nao_compareceu : SalesVisitStatus

pub data SalesVisitOutcome : Type 0 where
  interesse_alto interesse_medio interesse_baixo sem_interesse reagendar : SalesVisitOutcome

pub record SalesVisitRow : Type 0 where
  pub id : ℕ
  pub organization_id : ℕ
  pub opportunity_id : ℕ
  pub person_id : ℕ
  pub assigned_user_id : Option ℕ
  pub created_by_user_id : ℕ
  pub development_id : Option ℕ
  pub unit_id : Option ℕ
  pub scheduled_at : ℕ
  pub duration_minutes : ℕ
  pub status : SalesVisitStatus
  pub outcome : Option SalesVisitOutcome
  pub location : Option Text
  pub result : Option Text
  pub notes : Option Text
  pub completed_at : Option ℕ
  pub cancelled_at : Option ℕ
  pub cancellation_reason : Option Text
