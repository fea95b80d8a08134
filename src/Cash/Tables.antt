-- ===== src/Cash/Tables.antt =====
-- The tables that the finance services write.
use harpia_api.Prelude.{List}
use harpia_api.Store.{
  ReceivableRow, PayableRow, PaymentRow, TransactionRow, StatementEntryRow, Database,
}

pub record CashTables : Type 0 where
  pub receivables : List ReceivableRow
  pub payables : List PayableRow
  pub payments : List PaymentRow
  pub transactions : List TransactionRow
  pub entries : List StatementEntryRow

abbrev pub cash_of : Database → CashTables
cash_of db = record {
  receivables = db.receivables;
  payables = db.payables;
  payments = db.payments;
  transactions = db.transactions;
  entries = db.statement_entries;
}
