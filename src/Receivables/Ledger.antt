-- ===== src/Receivables/Ledger.antt =====
-- The receivables account of src/receivables/receivables.service.ts: receivables as debts.
use harpia_api.Prelude.{List}
use harpia_api.Store.{ReceivableStatus, ReceivableRow, PaymentRow, Database}
use harpia_api.Ledger.{DebtStatus, Debts, IsAccount}

abbrev pub debt_status : ReceivableStatus → DebtStatus
debt_status ReceivableStatus.pendente = DebtStatus.pending
debt_status ReceivableStatus.parcial = DebtStatus.partly_paid
debt_status ReceivableStatus.pago = DebtStatus.paid_off
debt_status ReceivableStatus.cancelado = DebtStatus.cancelled

abbrev pub receivable_debts : Debts ReceivableRow
receivable_debts = record {
  id_of = λ r. r.id;
  owed = λ r. r.adjusted_amount;
  paid = λ r. r.paid_amount;
  state = λ r. debt_status r.status;
  debt_of = λ p. p.receivable_id;
}

abbrev pub IsLedger : List ReceivableRow → List PaymentRow → Type 0
IsLedger = IsAccount receivable_debts

abbrev pub IsReconciled : Database → Type 0
IsReconciled db = IsLedger db.receivables db.payments
