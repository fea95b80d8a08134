-- ===== src/Store/Finance.antt =====
-- The rows of the financial tables: receivables, payments, cash transactions and bank statements.
use harpia_api.Prelude.Int.{ℤ}
use harpia_api.Prelude.{ℕ, Bool, Option, Text}
use harpia_api.Dates.{UtcDate}
use harpia_api.Store.Status.{
  ReceivableStatus, BankReconciliationStatus, PayableStatus, CollectionDispatchStatus, ReturnStatus,
}

pub record BankAccountRow : Type 0 where
  pub id : ℕ
  pub organization_id : ℕ
  pub company_id : Option ℕ

pub data CompanyType : Type 0 where
  spe incorporadora : CompanyType

pub record CompanyRow : Type 0 where
  pub id : ℕ
  pub organization_id : ℕ
  pub name : Text
  pub type : CompanyType

pub data FinancialCategoryType : Type 0 where
  receita despesa : FinancialCategoryType

pub record FinancialCategoryRow : Type 0 where
  pub id : ℕ
  pub organization_id : ℕ
  pub name : Text
  pub type : FinancialCategoryType
  pub is_default : Bool

pub record CostCenterRow : Type 0 where
  pub id : ℕ
  pub organization_id : ℕ
  pub name : Text
  pub development_id : Option ℕ
  pub company_id : Option ℕ
  pub active : Bool

pub record ReceivableRow : Type 0 where
  pub id : ℕ
  pub organization_id : ℕ
  pub company_id : Option ℕ
  pub bank_account_id : Option ℕ
  pub sale_id : Option ℕ
  pub source_id : ℕ
  pub source_sequence : ℕ
  pub description : Text
  pub due_date : UtcDate
  pub original_amount : ℕ
  pub adjusted_amount : ℕ
  pub paid_amount : ℕ
  pub status : ReceivableStatus
  pub paid_at : Option ℕ
  pub cancelled_at : Option ℕ

pub record PaymentRow : Type 0 where
  pub id : ℕ
  pub organization_id : ℕ
  pub receivable_id : Option ℕ
  pub payable_id : Option ℕ
  pub bank_account_id : ℕ
  pub amount : ℕ
  pub paid_at : ℕ
  pub notes : Option Text
  pub created_by_user_id : ℕ
  pub reversed_at : Option ℕ
  pub reversed_by_user_id : Option ℕ
  pub reversal_reason : Option Text

pub data TransactionType : Type 0 where
  entrada saida : TransactionType

pub record TransactionRow : Type 0 where
  pub id : ℕ
  pub organization_id : ℕ
  pub payment_id : ℕ
  pub receivable_id : Option ℕ
  pub payable_id : Option ℕ
  pub bank_account_id : ℕ
  pub company_id : Option ℕ
  pub development_id : Option ℕ
  pub cost_center_id : Option ℕ
  pub type : TransactionType
  pub amount : ℕ
  pub date : ℕ
  pub description : Text
  pub reversed_at : Option ℕ

pub data StatementEntryType : Type 0 where
  credito debito : StatementEntryType

pub record StatementEntryRow : Type 0 where
  pub id : ℕ
  pub organization_id : ℕ
  pub bank_account_id : ℕ
  pub external_id : Option Text
  pub fingerprint : Text
  pub date : Text
  pub description : Text
  pub type : StatementEntryType
  pub amount : ℕ
  pub status : BankReconciliationStatus
  pub matched_transaction_id : Option ℕ
  pub reconciled_at : Option ℕ
  pub ignored_at : Option ℕ

pub data PayableSourceType : Type 0 where
  investor_return sale_commission manual : PayableSourceType

pub record PayableRow : Type 0 where
  pub id : ℕ
  pub organization_id : ℕ
  pub company_id : Option ℕ
  pub development_id : Option ℕ
  pub bank_account_id : Option ℕ
  pub category_id : Option ℕ
  pub cost_center_id : Option ℕ
  pub supplier_person_id : Option ℕ
  pub sale_commission_id : Option ℕ
  pub investor_return_id : Option ℕ
  pub source_type : Option PayableSourceType
  pub description : Text
  pub due_date : ℕ
  pub original_amount : ℕ
  pub paid_amount : ℕ
  pub status : PayableStatus
  pub paid_at : Option ℕ
  pub cancelled_at : Option ℕ

pub record CollectionDispatchRow : Type 0 where
  pub id : ℕ
  pub organization_id : ℕ
  pub receivable_id : ℕ
  pub status : CollectionDispatchStatus

-- The investor's return that a payable may come from.
pub record ReturnRow : Type 0 where
  pub id : ℕ
  pub organization_id : ℕ
  pub expected_amount : ℕ
  pub realized_date : Option ℕ
  pub realized_amount : Option ℕ
  pub status : ReturnStatus

-- The value of a monetary index for a month, by the time of its first day; `percentage` is in units of
-- 10^-4, the digits that the column keeps.
pub record MonetaryIndexValueRow : Type 0 where
  pub organization_id : ℕ
  pub monetary_index_id : ℕ
  pub competence : ℕ
  pub percentage : ℤ

pub record AdjustmentPolicyRow : Type 0 where
  pub organization_id : ℕ
  pub receivable_id : ℕ
  pub monetary_index_id : ℕ
  pub base_date : ℕ
  pub active : Bool

pub record ReceivableAdjustmentRow : Type 0 where
  pub id : ℕ
  pub organization_id : ℕ
  pub receivable_id : ℕ
  pub previous_amount : ℕ
  pub adjusted_amount : ℕ
  pub difference : ℤ
  pub start_competence : ℕ
  pub end_competence : ℕ
  pub applied_at : ℕ
  pub applied_by_id : ℕ
