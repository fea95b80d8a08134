-- ===== src/Payables/Payments.antt =====
-- `recordPayment`, `reversePayment`, `syncSource` and `markCommissionDue` of
-- src/finance/payables.service.ts.
use harpia_api.Prelude.{
  ℕ, ◌+◌, ◌-◌, Bool, ◌&&◌, Option, none, some, [], ◌∷◌, Text, ltb, ◌==◌, is_some, is_value,
  if◌then◌else◌, length, map,
}
use harpia_api.Table.{find_first, find_many, modify}
use harpia_api.Store.{
  ReturnStatus, SaleCommissionStatus, SaleCommission, SaleRow, BankAccountRow, PayableStatus,
  PayableRow, PaymentRow, TransactionRow, TransactionType, ReturnRow, Database, AuditAction,
  EntityType, Actor, Action, Error, or_raise, raise_if, gets, transaction, modify_db, record_one,
  record_many, pure, is_payable_pago, ◌>>=◌, ◌>>◌,
}
use harpia_api.Reservations.Requests.{entry}
use harpia_api.Proposals.Pricing.{text_or_null}
use harpia_api.Receivables.Payments.{
  RecordPaymentDto, require_bank_account, first_of, insert_payment, insert_transaction, set_payment,
  reversed, reverse_transaction, is_matched, unmatch, audit_unmatched,
}
use harpia_api.Payables.Changes.{lock_payable, set_payable, is_payable_cancelado}

abbrev pub payable_payment_key : ℕ → ℕ → ℕ → PaymentRow → Bool
payable_payment_key id payable_id org p =
    p.id == id && is_value p.payable_id payable_id && p.organization_id == org

-- `lockPayment`
unfoldable pub lock_payable_payment : ℕ → ℕ → ℕ → Action PaymentRow
lock_payable_payment id payable_id org = do
  or_raise (← gets (λ db. find_first (payable_payment_key id payable_id org) db.payments))
      Error.payment_not_found

-- The data of `syncSource` for the return of an investor.
abbrev pub synced_return : PayableStatus → ℕ → ℕ → ReturnRow → ReturnRow
synced_return PayableStatus.pago date paid r = record r {
  status = ReturnStatus.pago;
  realized_date = some date;
  realized_amount = some paid;
}
synced_return _ date paid r = record r {
  status = ReturnStatus.pendente;
  realized_date = none;
  realized_amount = none;
}

abbrev pub commission_status : PayableStatus → SaleCommissionStatus
commission_status PayableStatus.pago = SaleCommissionStatus.paga
commission_status _ = SaleCommissionStatus.devida

abbrev pub has_commission : ℕ → SaleRow → Bool
has_commission id s = is_some (find_first (λ c. c.id == id) s.commissions)

abbrev pub with_commission : ℕ → (SaleCommission → SaleCommission) → SaleRow → SaleRow
with_commission id f s = record s { commissions = modify (λ c. c.id == id) f s.commissions }

abbrev pub set_commission : ℕ → SaleCommissionStatus → Database → Database
set_commission id status db = record db {
  sales = map (with_commission id (λ c. record c { status = status })) db.sales;
}

abbrev pub set_return : ℕ → (ReturnRow → ReturnRow) → Database → Database
set_return id f db = record db { returns = modify (λ r. r.id == id) f db.returns }

-- `tx.return.update`, which throws where there is no such row
unfoldable pub sync_return : Option ℕ → PayableStatus → ℕ → ℕ → Action (Unit {0})
sync_return none status date paid = pure tt
sync_return (some id) status date paid = do
  or_raise (← gets (λ db. find_first (λ r. r.id == id) db.returns)) Error.record_not_found
  modify_db (set_return id (synced_return status date paid))

-- `tx.saleCommission.update`
unfoldable pub sync_commission : Option ℕ → PayableStatus → Action (Unit {0})
sync_commission none status = pure tt
sync_commission (some id) status = do
  or_raise (← gets (λ db. find_first (has_commission id) db.sales)) Error.record_not_found
  modify_db (set_commission id (commission_status status))

-- `syncSource`
unfoldable pub sync_source : PayableRow → PayableStatus → ℕ → ℕ → Action (Unit {0})
unfolding sync_return sync_commission
sync_source payable status date paid = do
  sync_return payable.investor_return_id status date paid
  sync_commission payable.sale_commission_id status

abbrev pub outgoing_payment :
    ℕ → Actor → PayableRow → BankAccountRow → RecordPaymentDto → PaymentRow
outgoing_payment id actor payable account dto = record {
  id = id;
  organization_id = actor.organization_id;
  receivable_id = none;
  payable_id = some payable.id;
  bank_account_id = account.id;
  amount = dto.amount;
  paid_at = dto.paid_at;
  notes = text_or_null dto.notes;
  created_by_user_id = actor.id;
  reversed_at = none;
  reversed_by_user_id = none;
  reversal_reason = none;
}

abbrev pub outgoing_transaction :
    ℕ → ℕ → Actor → PayableRow → BankAccountRow → RecordPaymentDto → TransactionRow
outgoing_transaction id payment_id actor payable account dto = record {
  id = id;
  organization_id = actor.organization_id;
  payment_id = payment_id;
  receivable_id = none;
  payable_id = some payable.id;
  bank_account_id = account.id;
  company_id = first_of payable.company_id account.company_id;
  development_id = payable.development_id;
  cost_center_id = payable.cost_center_id;
  type = TransactionType.saida;
  amount = dto.amount;
  date = dto.paid_at;
  description = payable.description;
  reversed_at = none;
}

abbrev pub payable_status : ℕ → ℕ → PayableStatus
payable_status paid original =
    if paid == original then PayableStatus.pago else PayableStatus.parcial

abbrev pub paid_payable : PayableRow → BankAccountRow → RecordPaymentDto → PayableRow → PayableRow
paid_payable payable account dto p =
    let paid = payable.paid_amount + dto.amount in
    record p {
      paid_amount = paid;
      status = payable_status paid payable.original_amount;
      paid_at = if paid == payable.original_amount then some dto.paid_at else none;
      bank_account_id = some account.id;
    }

abbrev pub payment_action : PayableStatus → AuditAction
payment_action PayableStatus.pago = AuditAction.payable_paid
payment_action _ = AuditAction.payment_created

-- The callback of `recordPayment`. `amount.greaterThan(balance)`, with the balance
-- `original - paid`, is written without subtraction.
unfoldable pub pay_out : ℕ → ℕ → ℕ → Actor → RecordPaymentDto → Action (Unit {0})
unfolding lock_payable require_bank_account sync_source
pay_out id payment_id transaction_id actor dto = do
  payable ← lock_payable id actor.organization_id
  raise_if (is_payable_cancelado payable.status) Error.payable_cancelled
  raise_if (is_payable_pago payable.status) Error.payable_paid
  raise_if (ltb payable.original_amount (payable.paid_amount + dto.amount))
      Error.payment_above_balance
  account ← require_bank_account dto.bank_account_id actor.organization_id
  modify_db (insert_payment (outgoing_payment payment_id actor payable account dto))
  modify_db (
      insert_transaction (outgoing_transaction transaction_id payment_id actor payable account dto))
  let paid = payable.paid_amount + dto.amount
  let status = payable_status paid payable.original_amount
  modify_db (set_payable payable.id (paid_payable payable account dto))
  sync_source payable status dto.paid_at paid
  record_many (
      entry actor (payment_action status) EntityType.payable payable.id
      ∷ entry actor AuditAction.financial_transaction_created EntityType.financial_transaction
          transaction_id
      ∷ [])

-- `recordPayment`; the identifiers are those that the database gives the new rows.
unfoldable pub pay_payable : ℕ → ℕ → ℕ → ℕ → Actor → RecordPaymentDto → Action PayableRow
unfolding pay_out lock_payable
pay_payable now id payment_id transaction_id actor dto = do
  raise_if (ltb now dto.paid_at) Error.payment_in_future
  transaction (pay_out id payment_id transaction_id actor dto)
  lock_payable id actor.organization_id

abbrev pub restored_status : ℕ → PayableStatus
restored_status paid = if paid == 0 then PayableStatus.pendente else PayableStatus.parcial

abbrev pub restored_payable : PayableRow → PaymentRow → PayableRow → PayableRow
restored_payable payable payment p =
    let paid = payable.paid_amount - payment.amount in
    record p { paid_amount = paid; status = restored_status paid; paid_at = none }

-- The callback of `reversePayment`. `paidAmount.lessThan(0)` is written without subtraction.
unfoldable pub take_back : ℕ → ℕ → ℕ → Actor → Text → Action (Unit {0})
unfolding lock_payable lock_payable_payment audit_unmatched sync_source
take_back now id payment_id actor reason = do
  payable ← lock_payable id actor.organization_id
  payment ← lock_payable_payment payment_id payable.id actor.organization_id
  raise_if (is_some payment.reversed_at) Error.payment_already_reversed
  raise_if (ltb payable.paid_amount payment.amount) Error.inconsistent_payments
  modify_db (set_payment payment.id (reversed now actor reason))
  entry_of ←
      or_raise (← gets (λ db. find_first (λ t. t.payment_id == payment.id) db.transactions))
        Error.record_not_found
  modify_db (reverse_transaction now payment.id)
  matched ← gets (λ db. ltb 0 (length (find_many (is_matched entry_of.id) db.statement_entries)))
  modify_db (unmatch entry_of.id)
  modify_db (set_payable payable.id (restored_payable payable payment))
  let paid = payable.paid_amount - payment.amount
  sync_source payable (restored_status paid) now paid
  record_one (entry actor AuditAction.payment_reversed EntityType.financial_payment payment.id)
  audit_unmatched matched actor entry_of.id

-- `reversePayment`
unfoldable pub reverse_payable_payment : ℕ → ℕ → ℕ → Actor → Text → Action PayableRow
unfolding take_back lock_payable
reverse_payable_payment now id payment_id actor reason = do
  transaction (take_back now id payment_id actor reason)
  lock_payable id actor.organization_id
