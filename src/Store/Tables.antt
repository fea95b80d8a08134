-- ===== src/Store/Tables.antt =====
-- The audit log of src/audit/audit.service.ts, and the database as one record of tables.
use harpia_api.Prelude.{ℕ, Option, List}
use harpia_api.Store.Commercial.{
  UnitRow, PersonRow, UserRow, DevelopmentRow, ReservationRow, StageRow, OpportunityRow,
  StageHistoryRow, ProposalVersionRow, ProposalRow, UnitPriceRow, SaleRow, SaleCancellationRow,
  PersonRoleRow,
}
use harpia_api.Store.Visits.{SalesVisitRow}
use harpia_api.Store.Finance.{
  BankAccountRow, CostCenterRow, ReceivableRow, PaymentRow, TransactionRow, StatementEntryRow,
  PayableRow, CollectionDispatchRow, CompanyRow, FinancialCategoryRow, ReturnRow,
  MonetaryIndexValueRow, AdjustmentPolicyRow, ReceivableAdjustmentRow,
}

-- The names of AUDIT_ACTIONS that the modelled services record.
pub data AuditAction : Type 0 where
  update unit_reserved unit_reservation_cancelled unit_reservation_expired : AuditAction
  unit_reservation_converted opportunity_stage_changed opportunity_won : AuditAction
  opportunity_lost proposal_created proposal_version_created proposal_sent : AuditAction
  proposal_rejected proposal_accepted proposal_expired sale_created sale_updated : AuditAction
  sale_buyer_added sale_commission_created sale_cancelled : AuditAction
  proposal_converted_to_sale receivable_created receivable_cancelled : AuditAction
  payment_recorded payment_reversed financial_transaction_created : AuditAction
  bank_transaction_unmatched sales_visit_created sales_visit_updated : AuditAction
  payable_created payable_updated payable_paid payment_created : AuditAction
  bank_transaction_matched bank_statement_ignored bank_statement_restored : AuditAction
  receivable_adjustment_applied bank_statement_imported : AuditAction

pub data EntityType : Type 0 where
  unit unit_reservation opportunity sales_proposal proposal_version sale receivable : EntityType
  financial_payment financial_transaction sales_visit payable : EntityType
  bank_statement_entry receivable_adjustment : EntityType

pub record AuditEntry : Type 0 where
  pub organization_id : ℕ
  pub actor_user_id : Option ℕ
  pub action : AuditAction
  pub entity_type : EntityType
  pub entity_id : Option ℕ

pub record Database : Type 0 where
  pub units : List UnitRow
  pub people : List PersonRow
  pub person_roles : List PersonRoleRow
  pub users : List UserRow
  pub developments : List DevelopmentRow
  pub reservations : List ReservationRow
  pub stages : List StageRow
  pub opportunities : List OpportunityRow
  pub stage_history : List StageHistoryRow
  pub proposals : List ProposalRow
  pub proposal_versions : List ProposalVersionRow
  pub sales_visits : List SalesVisitRow
  pub unit_prices : List UnitPriceRow
  pub sales : List SaleRow
  pub sale_cancellations : List SaleCancellationRow
  pub receivables : List ReceivableRow
  pub payables : List PayableRow
  pub collection_dispatches : List CollectionDispatchRow
  pub payments : List PaymentRow
  pub transactions : List TransactionRow
  pub statement_entries : List StatementEntryRow
  pub bank_accounts : List BankAccountRow
  pub cost_centers : List CostCenterRow
  pub companies : List CompanyRow
  pub financial_categories : List FinancialCategoryRow
  pub returns : List ReturnRow
  pub index_values : List MonetaryIndexValueRow
  pub adjustment_policies : List AdjustmentPolicyRow
  pub adjustments : List ReceivableAdjustmentRow
  pub audit_logs : List AuditEntry

-- The tenant and the user of the validated session, `MutationActor` and its like.
pub record Actor : Type 0 where
  pub id : ℕ
  pub organization_id : ℕ
