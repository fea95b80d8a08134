-- ===== src/Store/Commercial.antt =====
-- The rows of the commercial tables: units, reservations, opportunities, proposals and sales.
use harpia_api.Prelude.{ℕ, Bool, Option, List, Text}
use harpia_api.Prelude.Int.{ℤ}
use harpia_api.Dates.{UtcDate}
use harpia_api.Store.Status.{
  UnitStatus, UnitReservationStatus, SalesProposalStatus, SaleStatus, SaleCommissionStatus,
  PaymentConditionType, PersonRoleType,
}

pub record UnitRow : Type 0 where
  pub id : ℕ
  pub organization_id : ℕ
  pub development_id : ℕ
  pub status : UnitStatus

-- `expectedDeliveryDate` and `companyId` of a development.
pub record DevelopmentRow : Type 0 where
  pub id : ℕ
  pub organization_id : ℕ
  pub company_id : Option ℕ
  pub expected_delivery_date : Option UtcDate

pub record UserRow : Type 0 where
  pub id : ℕ
  pub organization_id : ℕ
  pub is_active : Bool

pub record PersonRow : Type 0 where
  pub id : ℕ
  pub organization_id : ℕ

pub record ReservationRow : Type 0 where
  pub id : ℕ
  pub organization_id : ℕ
  pub unit_id : ℕ
  pub person_id : ℕ
  pub opportunity_id : Option ℕ
  pub created_by_user_id : ℕ
  pub status : UnitReservationStatus
  pub expires_at : ℕ
  pub notes : Option Text
  pub cancelled_at : Option ℕ
  pub cancelled_by_user_id : Option ℕ
  pub cancellation_reason : Option Text
  pub converted_at : Option ℕ
  pub converted_by_user_id : Option ℕ

pub record StageRow : Type 0 where
  pub id : ℕ
  pub organization_id : ℕ
  pub pipeline_id : ℕ
  pub position : ℕ
  pub is_won : Bool
  pub is_lost : Bool

pub record OpportunityRow : Type 0 where
  pub id : ℕ
  pub organization_id : ℕ
  pub person_id : ℕ
  pub pipeline_id : ℕ
  pub stage_id : ℕ
  pub development_id : Option ℕ
  pub assigned_user_id : Option ℕ
  pub unit_id : Option ℕ
  pub lost_reason : Option Text
  pub stage_entered_at : ℕ

pub record StageHistoryRow : Type 0 where
  pub organization_id : ℕ
  pub opportunity_id : ℕ
  pub from_stage_id : ℕ
  pub to_stage_id : ℕ
  pub changed_by_user_id : ℕ
  pub lost_reason : Option Text

pub record PaymentCondition : Type 0 where
  pub type : PaymentConditionType
  pub amount : ℕ
  pub installments : Option ℕ
  pub first_due_date : Option UtcDate
  pub interval_months : Option ℕ
  pub description : Option Text
  pub position : ℕ

pub record ProposalVersionRow : Type 0 where
  pub id : ℕ
  pub organization_id : ℕ
  pub proposal_id : ℕ
  pub version : ℕ
  pub base_price : ℕ
  pub discount : ℕ
  pub final_price : ℕ
  pub down_payment : ℕ
  pub valid_until : Option ℕ
  pub source_price_table_id : ℕ
  pub created_by_user_id : ℕ
  pub conditions : List PaymentCondition

pub record ProposalRow : Type 0 where
  pub id : ℕ
  pub organization_id : ℕ
  pub opportunity_id : Option ℕ
  pub reservation_id : Option ℕ
  pub person_id : ℕ
  pub unit_id : ℕ
  pub status : SalesProposalStatus
  pub current_version_id : Option ℕ
  pub valid_until : Option ℕ
  pub created_by_user_id : ℕ
  pub sent_at : Option ℕ
  pub sent_by_user_id : Option ℕ
  pub accepted_at : Option ℕ
  pub accepted_by_user_id : Option ℕ
  pub rejected_at : Option ℕ
  pub rejected_by_user_id : Option ℕ
  pub rejection_reason : Option Text
  pub converted_to_sale_at : Option ℕ
  pub converted_to_sale_by_user_id : Option ℕ

pub record UnitPriceRow : Type 0 where
  pub organization_id : ℕ
  pub unit_id : ℕ
  pub value : ℤ
  pub price_table_id : ℕ
  pub price_table_active : Bool

pub record SaleBuyer : Type 0 where
  pub person_id : ℕ
  pub participation_percentage : Option ℕ
  pub is_primary : Bool

pub record SaleCommission : Type 0 where
  pub id : ℕ
  pub person_id : Option ℕ
  pub user_id : Option ℕ
  pub percentage : Option ℕ
  pub amount : ℕ
  pub status : SaleCommissionStatus
  pub notes : Option Text

pub record SaleRow : Type 0 where
  pub id : ℕ
  pub organization_id : ℕ
  pub development_id : ℕ
  pub unit_id : ℕ
  pub opportunity_id : Option ℕ
  pub proposal_id : Option ℕ
  pub sale_number : Text
  pub status : SaleStatus
  pub sale_date : UtcDate
  pub gross_amount : ℕ
  pub discount_amount : ℕ
  pub net_amount : ℕ
  pub notes : Option Text
  pub created_by_user_id : ℕ
  pub cancelled_at : Option ℕ
  pub buyers : List SaleBuyer
  pub payment_plan : List PaymentCondition
  pub commissions : List SaleCommission

pub record SaleCancellationRow : Type 0 where
  pub organization_id : ℕ
  pub sale_id : ℕ
  pub reason : Text
  pub cancelled_by_user_id : ℕ

-- `personId` and `role` are the unique key.
pub record PersonRoleRow : Type 0 where
  pub organization_id : ℕ
  pub person_id : ℕ
  pub role : PersonRoleType
