-- ===== src/Store/Checks.antt =====
-- CHECK constraints of receivables and payables, prisma/migrations.
use harpia_api.Prelude.{ℕ, Bool, ◌&&◌, not, Option, ltb, leb, ◌==◌, is_some, all_by}
use harpia_api.Table.{find_many}
use harpia_api.Store.Status.{ReceivableStatus, PayableStatus}
use harpia_api.Store.Finance.{ReceivableRow, PayableRow}
use harpia_api.Store.Tables.{Database}

-- Receivable_state
abbrev pub receivable_state :
    ReceivableStatus → (paid owed : ℕ) → (paid_at cancelled_at : Option ℕ) → Bool
receivable_state ReceivableStatus.pendente paid owed paid_at cancelled_at =
    paid == 0 && not (is_some paid_at) && not (is_some cancelled_at)
receivable_state ReceivableStatus.parcial paid owed paid_at cancelled_at =
    ltb 0 paid && ltb paid owed && not (is_some paid_at) && not (is_some cancelled_at)
receivable_state ReceivableStatus.pago paid owed paid_at cancelled_at =
    paid == owed && is_some paid_at && not (is_some cancelled_at)
receivable_state ReceivableStatus.cancelado paid owed paid_at cancelled_at =
    paid == 0 && not (is_some paid_at) && is_some cancelled_at

-- Receivable_amounts and Receivable_state
abbrev pub is_receivable_allowed : ReceivableRow → Bool
is_receivable_allowed r =
    leb r.paid_amount r.adjusted_amount
    && receivable_state r.status r.paid_amount r.adjusted_amount r.paid_at r.cancelled_at

abbrev pub receivables_hold : ℕ → Database → Bool
receivables_hold id db = all_by is_receivable_allowed (find_many (λ r. r.id == id) db.receivables)

-- Payable_state
abbrev pub payable_state :
    PayableStatus → (paid owed : ℕ) → (paid_at cancelled_at : Option ℕ) → Bool
payable_state PayableStatus.pendente paid owed paid_at cancelled_at =
    paid == 0 && not (is_some paid_at) && not (is_some cancelled_at)
payable_state PayableStatus.parcial paid owed paid_at cancelled_at =
    ltb 0 paid && ltb paid owed && not (is_some paid_at) && not (is_some cancelled_at)
payable_state PayableStatus.pago paid owed paid_at cancelled_at =
    paid == owed && is_some paid_at && not (is_some cancelled_at)
payable_state PayableStatus.cancelado paid owed paid_at cancelled_at =
    paid == 0 && not (is_some paid_at) && is_some cancelled_at

-- Payable_amounts and Payable_state
abbrev pub is_payable_allowed : PayableRow → Bool
is_payable_allowed p =
    ltb 0 p.original_amount
    && leb p.paid_amount p.original_amount
    && payable_state p.status p.paid_amount p.original_amount p.paid_at p.cancelled_at

abbrev pub payables_hold : ℕ → Database → Bool
payables_hold id db = all_by is_payable_allowed (find_many (λ p. p.id == id) db.payables)
