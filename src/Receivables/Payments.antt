-- ===== src/Receivables/Payments.antt =====
-- Payments: `recordPayment`, `reversePayment`, `cancel`, `transactionContext` and
-- `syncSaleStatus` of src/receivables/receivables.service.ts.
use harpia_api.Prelude.{
  ℕ, ◌+◌, ◌-◌, Bool, true, false, ◌&&◌, ◌||◌, not, Option, none, some, List, [], ◌∷◌, ◌++◌, Text,
  ltb, ◌==◌, is_some, is_value, if◌then◌else◌, length, all_by,
}
use harpia_api.Table.{find_first, find_many, modify}
use harpia_api.Store.{
  ReceivableStatus, SaleStatus, BankReconciliationStatus, BankAccountRow, CostCenterRow,
  ReceivableRow, PaymentRow, TransactionRow, TransactionType, StatementEntryRow, SaleRow, Database,
  AuditAction, EntityType, Actor, Action, Error, pure, or_raise, raise_if, gets, transaction,
  modify_db, record_one, is_pago, is_cancelado, is_current, ◌>>=◌, ◌>>◌,
}
use harpia_api.Reservations.Requests.{entry}
use harpia_api.Proposals.Pricing.{text_or_null}

-- RecordPaymentDto; its pattern takes amounts of at least one cent.
pub record RecordPaymentDto : Type 0 where
  pub amount : ℕ
  pub paid_at : ℕ
  pub bank_account_id : ℕ
  pub notes : Option Text

abbrev pub receivable_key : ℕ → ℕ → ReceivableRow → Bool
receivable_key id org r = r.id == id && r.organization_id == org

unfoldable pub lock_receivable : ℕ → ℕ → Action ReceivableRow
lock_receivable id org = do
  or_raise (← gets (λ db. find_first (receivable_key id org) db.receivables))
      Error.receivable_not_found

abbrev pub payment_key : ℕ → ℕ → ℕ → PaymentRow → Bool
payment_key id receivable_id org p =
    p.id == id && is_value p.receivable_id receivable_id && p.organization_id == org

unfoldable pub lock_payment : ℕ → ℕ → ℕ → Action PaymentRow
lock_payment id receivable_id org = do
  or_raise (← gets (λ db. find_first (payment_key id receivable_id org) db.payments))
      Error.payment_not_found

unfoldable pub require_bank_account : ℕ → ℕ → Action BankAccountRow
require_bank_account id org = do
  or_raise
      (← gets (λ db. find_first (λ a. a.id == id && a.organization_id == org) db.bank_accounts))
      Error.invalid_bank_account

abbrev pub first_of : Option ℕ → Option ℕ → Option ℕ
first_of none b = b
first_of (some a) b = some a

-- The `where` of the cost centre: by the development of the sale, else by the company.
abbrev pub is_cost_center : ℕ → Option ℕ → Option ℕ → CostCenterRow → Bool
is_cost_center org (some d) company c =
    c.organization_id == org && is_value c.development_id d && c.active
is_cost_center org none (some k) c = c.organization_id == org && is_value c.company_id k && c.active
is_cost_center org none none c = c.organization_id == org && c.active

pub record TransactionContext : Type 0 where
  pub company_id : Option ℕ
  pub development_id : Option ℕ
  pub cost_center_id : Option ℕ

abbrev pub sale_development : Option ℕ → ℕ → Database → Option ℕ
sale_development none org db = none
sale_development (some id) org db =
    elim (find_first (λ s. s.id == id && s.organization_id == org) db.sales) [
      | none ↦ none
      | some s ↦ some s.development_id
    ]

abbrev pub cost_center_of : ℕ → Option ℕ → Option ℕ → Database → Option ℕ
cost_center_of org development company db =
    elim (find_first (is_cost_center org development company) db.cost_centers) [
      | none ↦ none
      | some c ↦ some c.id
    ]

abbrev pub transaction_context : ReceivableRow → Option ℕ → ℕ → Database → TransactionContext
transaction_context r bank_company org db =
    let development = sale_development r.sale_id org db in
    let company = first_of r.company_id bank_company in
    record {
      company_id = company;
      development_id = development;
      cost_center_id = cost_center_of org development company db;
    }

-- The status of a sale that follows from its receivables that are not cancelled.
abbrev pub next_sale_status : List ReceivableRow → SaleStatus
next_sale_status rs =
    if ltb 0 (length rs) && all_by (λ r. is_pago r.status) rs
    then SaleStatus.quitada
    else SaleStatus.ativa

abbrev pub same_sale_status : SaleStatus → SaleStatus → Bool
same_sale_status SaleStatus.ativa SaleStatus.ativa = true
same_sale_status SaleStatus.quitada SaleStatus.quitada = true
same_sale_status SaleStatus.distratada SaleStatus.distratada = true
same_sale_status SaleStatus.cancelada SaleStatus.cancelada = true
same_sale_status _ _ = false

abbrev pub owed_for : ℕ → ℕ → Database → List ReceivableRow
owed_for sale_id org db =
    find_many
      (λ r. is_value r.sale_id sale_id && r.organization_id == org && not (is_cancelado r.status))
      db.receivables

unfoldable pub set_sale_status : SaleStatus → SaleRow → Actor → Action (Unit {0})
set_sale_status status sale actor = do
  modify_db (λ db. record db {
    sales = modify (λ s. s.id == sale.id) (λ s. record s { status = status }) db.sales;
  })
  record_one (entry actor AuditAction.sale_updated EntityType.sale sale.id)

unfoldable pub sync_locked_sale : Option SaleRow → Actor → Action (Unit {0})
unfolding set_sale_status
sync_locked_sale none actor = pure tt
sync_locked_sale (some sale) actor = do
  next ← gets (λ db. next_sale_status (owed_for sale.id actor.organization_id db))
  if not (is_current sale.status) || same_sale_status sale.status next
      then pure tt
      else set_sale_status next sale actor

-- `syncSaleStatus`
unfoldable pub sync_sale_status : Option ℕ → Actor → Action (Unit {0})
unfolding sync_locked_sale
sync_sale_status none actor = pure tt
sync_sale_status (some id) actor = do
  sale ←
      gets
        (λ db. find_first (λ s. s.id == id && s.organization_id == actor.organization_id) db.sales)
  sync_locked_sale sale actor

abbrev pub new_payment : ℕ → Actor → ReceivableRow → BankAccountRow → RecordPaymentDto → PaymentRow
new_payment id actor r account dto = record {
  id = id;
  organization_id = actor.organization_id;
  receivable_id = some r.id;
  payable_id = none;
  bank_account_id = account.id;
  amount = dto.amount;
  paid_at = dto.paid_at;
  notes = text_or_null dto.notes;
  created_by_user_id = actor.id;
  reversed_at = none;
  reversed_by_user_id = none;
  reversal_reason = none;
}

abbrev pub new_transaction :
    ℕ
    → ℕ
    → Actor
    → ReceivableRow
    → BankAccountRow
    → TransactionContext
    → RecordPaymentDto
    → TransactionRow
new_transaction id payment_id actor r account context dto = record {
  id = id;
  organization_id = actor.organization_id;
  payment_id = payment_id;
  receivable_id = some r.id;
  payable_id = none;
  bank_account_id = account.id;
  company_id = context.company_id;
  development_id = context.development_id;
  cost_center_id = context.cost_center_id;
  type = TransactionType.entrada;
  amount = dto.amount;
  date = dto.paid_at;
  description = r.description;
  reversed_at = none;
}

abbrev pub paid_status : ℕ → ℕ → ReceivableStatus
paid_status paid adjusted =
    if paid == adjusted then ReceivableStatus.pago else ReceivableStatus.parcial

abbrev pub received :
    ReceivableRow → BankAccountRow → RecordPaymentDto → ReceivableRow → ReceivableRow
received r account dto x =
    let paid = r.paid_amount + dto.amount in
    record x {
      paid_amount = paid;
      status = paid_status paid r.adjusted_amount;
      paid_at = if paid == r.adjusted_amount then some dto.paid_at else none;
      bank_account_id = some account.id;
    }

abbrev pub set_receivable : ℕ → (ReceivableRow → ReceivableRow) → Database → Database
set_receivable id f db = record db { receivables = modify (λ r. r.id == id) f db.receivables }

abbrev pub insert_payment : PaymentRow → Database → Database
insert_payment p db = record db { payments = db.payments ++ p ∷ [] }

abbrev pub insert_transaction : TransactionRow → Database → Database
insert_transaction t db = record db { transactions = db.transactions ++ t ∷ [] }

-- The callback of `recordPayment`. `amount.greaterThan(balance)`, with the balance
-- `adjusted - paid`, is written without subtraction.
unfoldable pub pay : ℕ → ℕ → ℕ → Actor → RecordPaymentDto → Action (Unit {0})
unfolding lock_receivable require_bank_account sync_sale_status
pay id payment_id transaction_id actor dto = do
  receivable ← lock_receivable id actor.organization_id
  raise_if (is_cancelado receivable.status) Error.receivable_cancelled
  raise_if (is_pago receivable.status) Error.receivable_paid
  raise_if (ltb receivable.adjusted_amount (receivable.paid_amount + dto.amount))
      Error.payment_above_balance
  account ← require_bank_account dto.bank_account_id actor.organization_id
  context ← gets (transaction_context receivable account.company_id actor.organization_id)
  modify_db (insert_payment (new_payment payment_id actor receivable account dto))
  modify_db (
      insert_transaction
        (new_transaction transaction_id payment_id actor receivable account context dto))
  modify_db (set_receivable receivable.id (received receivable account dto))
  record_one (entry actor AuditAction.payment_recorded EntityType.financial_payment payment_id)
  record_one (
      entry actor AuditAction.financial_transaction_created EntityType.financial_transaction
        transaction_id)
  sync_sale_status receivable.sale_id actor

-- `recordPayment`; the identifiers are those that the database gives the new rows. `findOne` reads
-- the receivable again.
unfoldable pub record_payment : ℕ → ℕ → ℕ → ℕ → Actor → RecordPaymentDto → Action ReceivableRow
unfolding pay lock_receivable
record_payment now id payment_id transaction_id actor dto = do
  raise_if (ltb now dto.paid_at) Error.payment_in_future
  transaction (pay id payment_id transaction_id actor dto)
  lock_receivable id actor.organization_id

abbrev pub reversed : ℕ → Actor → Text → PaymentRow → PaymentRow
reversed now actor reason p = record p {
  reversed_at = some now;
  reversed_by_user_id = some actor.id;
  reversal_reason = some reason;
}

abbrev pub refunded : ReceivableRow → PaymentRow → ReceivableRow → ReceivableRow
refunded r p x =
    let paid = r.paid_amount - p.amount in
    record x {
      paid_amount = paid;
      status = if paid == 0 then ReceivableStatus.pendente else ReceivableStatus.parcial;
      paid_at = none;
    }

abbrev pub set_payment : ℕ → (PaymentRow → PaymentRow) → Database → Database
set_payment id f db = record db { payments = modify (λ p. p.id == id) f db.payments }

abbrev pub reverse_transaction : ℕ → ℕ → Database → Database
reverse_transaction now payment_id db = record db {
  transactions =
      modify (λ t. t.payment_id == payment_id) (λ t. record t { reversed_at = some now })
        db.transactions;
}

abbrev pub is_matched : ℕ → StatementEntryRow → Bool
is_matched transaction_id e = is_value e.matched_transaction_id transaction_id

abbrev pub freed : StatementEntryRow → StatementEntryRow
freed e = record e {
  status = BankReconciliationStatus.pendente;
  matched_transaction_id = none;
  reconciled_at = none;
}

abbrev pub unmatch : ℕ → Database → Database
unmatch transaction_id db = record db {
  statement_entries = modify (is_matched transaction_id) freed db.statement_entries;
}

unfoldable pub audit_unmatched : Bool → Actor → ℕ → Action (Unit {0})
audit_unmatched false actor transaction_id = pure tt
audit_unmatched true actor transaction_id = record_one (
    entry actor AuditAction.bank_transaction_unmatched EntityType.financial_transaction
      transaction_id)

-- The callback of `reversePayment`. `paidAmount.lessThan(0)` is written without subtraction.
unfoldable pub refund : ℕ → ℕ → ℕ → Actor → Text → Action (Unit {0})
unfolding lock_receivable lock_payment audit_unmatched sync_sale_status
refund now id payment_id actor reason = do
  receivable ← lock_receivable id actor.organization_id
  payment ← lock_payment payment_id receivable.id actor.organization_id
  raise_if (is_some payment.reversed_at) Error.payment_already_reversed
  raise_if (ltb receivable.paid_amount payment.amount) Error.inconsistent_payments
  modify_db (set_payment payment.id (reversed now actor reason))
  entry_of ←
      or_raise (← gets (λ db. find_first (λ t. t.payment_id == payment.id) db.transactions))
        Error.record_not_found
  modify_db (reverse_transaction now payment.id)
  matched ← gets (λ db. ltb 0 (length (find_many (is_matched entry_of.id) db.statement_entries)))
  modify_db (unmatch entry_of.id)
  modify_db (set_receivable receivable.id (refunded receivable payment))
  record_one (entry actor AuditAction.payment_reversed EntityType.financial_payment payment.id)
  audit_unmatched matched actor entry_of.id
  sync_sale_status receivable.sale_id actor

-- `reversePayment`
unfoldable pub reverse_payment : ℕ → ℕ → ℕ → Actor → Text → Action ReceivableRow
unfolding refund lock_receivable
reverse_payment now id payment_id actor reason = do
  transaction (refund now id payment_id actor reason)
  lock_receivable id actor.organization_id

abbrev pub withdrawn : ℕ → ReceivableRow → ReceivableRow
withdrawn now x = record x { status = ReceivableStatus.cancelado; cancelled_at = some now }

unfoldable pub withdraw : ℕ → ReceivableRow → Actor → Action (Unit {0})
unfolding sync_sale_status
withdraw now r actor = do
  raise_if (not (r.paid_amount == 0)) Error.receivable_has_payments
  modify_db (set_receivable r.id (withdrawn now))
  record_one (entry actor AuditAction.receivable_cancelled EntityType.receivable r.id)
  sync_sale_status r.sale_id actor

-- `cancel`
unfoldable pub cancel : ℕ → ℕ → Actor → Action ReceivableRow
unfolding lock_receivable withdraw
cancel now id actor = do
  transaction (do
    receivable ← lock_receivable id actor.organization_id
    if is_cancelado receivable.status then pure tt else withdraw now receivable actor)
  lock_receivable id actor.organization_id
