-- ===== src/Reconciliation/Matching.antt =====
-- `match`, `unmatch`, `ignore` and `restore` of src/finance/bank-reconciliation.service.ts.
use harpia_api.Prelude.{
  ℕ, Bool, true, false, ◌&&◌, ◌||◌, not, Option, none, some, ◌==◌, is_some, is_value,
}
use harpia_api.Table.{find_first, modify}
use harpia_api.Store.{
  BankReconciliationStatus, StatementEntryType, StatementEntryRow, TransactionType, TransactionRow,
  Database, AuditAction, EntityType, Actor, Action, Error, or_raise, raise_if, gets, transaction,
  on_unique_violation, modify_db, record_one, ◌>>=◌, ◌>>◌,
}
use harpia_api.Reservations.Requests.{entry}

abbrev pub is_pendente : BankReconciliationStatus → Bool
is_pendente BankReconciliationStatus.pendente = true
is_pendente _ = false

abbrev pub same_entry_status : BankReconciliationStatus → BankReconciliationStatus → Bool
same_entry_status BankReconciliationStatus.pendente BankReconciliationStatus.pendente = true
same_entry_status BankReconciliationStatus.conciliado BankReconciliationStatus.conciliado = true
same_entry_status BankReconciliationStatus.ignorado BankReconciliationStatus.ignorado = true
same_entry_status _ _ = false

abbrev pub entry_key : ℕ → ℕ → StatementEntryRow → Bool
entry_key id org e = e.id == id && e.organization_id == org

-- `lockEntry`; `findOne` reads the same row.
unfoldable pub lock_entry : ℕ → ℕ → Action StatementEntryRow
lock_entry id org = do
  or_raise (← gets (λ db. find_first (entry_key id org) db.statement_entries)) Error.entry_not_found

abbrev pub transaction_key : ℕ → ℕ → TransactionRow → Bool
transaction_key id org t = t.id == id && t.organization_id == org

unfoldable pub lock_transaction : ℕ → ℕ → Action TransactionRow
lock_transaction id org = do
  or_raise (← gets (λ db. find_first (transaction_key id org) db.transactions))
      Error.transaction_not_found

abbrev pub expected_type : StatementEntryType → TransactionType
expected_type StatementEntryType.credito = TransactionType.entrada
expected_type StatementEntryType.debito = TransactionType.saida

abbrev pub same_transaction_type : TransactionType → TransactionType → Bool
same_transaction_type TransactionType.entrada TransactionType.entrada = true
same_transaction_type TransactionType.saida TransactionType.saida = true
same_transaction_type _ _ = false

-- The test of `match` that the transaction is not the entry's.
abbrev pub mismatches : StatementEntryRow → TransactionRow → Bool
mismatches e t =
    is_some t.reversed_at
    || not (t.bank_account_id == e.bank_account_id)
    || not (same_transaction_type t.type (expected_type e.type))
    || not (t.amount == e.amount)

abbrev pub matched_entry : ℕ → ℕ → StatementEntryRow → StatementEntryRow
matched_entry now transaction_id e = record e {
  status = BankReconciliationStatus.conciliado;
  matched_transaction_id = some transaction_id;
  reconciled_at = some now;
  ignored_at = none;
}

abbrev pub set_entry : ℕ → (StatementEntryRow → StatementEntryRow) → Database → Database
set_entry id f db = record db {
  statement_entries = modify (λ e. e.id == id) f db.statement_entries;
}

-- The callback of `match`.
unfoldable pub match_locked : ℕ → ℕ → ℕ → Actor → Action (Unit {0})
unfolding lock_entry lock_transaction
match_locked now id transaction_id actor = do
  e ← lock_entry id actor.organization_id
  raise_if (not (is_pendente e.status)) Error.entry_not_pending
  t ← lock_transaction transaction_id actor.organization_id
  raise_if (mismatches e t) Error.transaction_mismatch
  already_matched ←
      gets (λ db. find_first (λ x. is_value x.matched_transaction_id t.id) db.statement_entries)
  raise_if (is_some already_matched) Error.transaction_matched
  modify_db (set_entry e.id (matched_entry now t.id))
  record_one (entry actor AuditAction.bank_transaction_matched EntityType.bank_statement_entry e.id)

-- `match`
unfoldable pub match_entry : ℕ → ℕ → ℕ → Actor → Action StatementEntryRow
unfolding match_locked lock_entry
match_entry now id transaction_id actor = do
  on_unique_violation Error.transaction_matched
      (transaction (match_locked now id transaction_id actor))
  lock_entry id actor.organization_id

abbrev pub ignored_time : ℕ → BankReconciliationStatus → Option ℕ
ignored_time now BankReconciliationStatus.ignorado = some now
ignored_time now _ = none

abbrev pub released_entry : ℕ → BankReconciliationStatus → StatementEntryRow → StatementEntryRow
released_entry now target e = record e {
  status = target;
  matched_transaction_id = none;
  reconciled_at = none;
  ignored_at = ignored_time now target;
}

-- `changeStatus`
unfoldable pub change_status :
    ℕ
    → ℕ
    → Actor
    → BankReconciliationStatus
    → BankReconciliationStatus
    → AuditAction
    → Action (Unit {0})
unfolding lock_entry
change_status now id actor expected target action = transaction (do
  e ← lock_entry id actor.organization_id
  raise_if (not (same_entry_status e.status expected)) Error.entry_changed
  modify_db (set_entry e.id (released_entry now target))
  record_one (entry actor action EntityType.bank_statement_entry e.id))

-- `unmatch`
unfoldable pub unmatch_entry : ℕ → ℕ → Actor → Action StatementEntryRow
unfolding change_status lock_entry
unmatch_entry now id actor = do
  change_status now id actor BankReconciliationStatus.conciliado BankReconciliationStatus.pendente
      AuditAction.bank_transaction_unmatched
  lock_entry id actor.organization_id

-- `ignore`
unfoldable pub ignore_entry : ℕ → ℕ → Actor → Action StatementEntryRow
unfolding change_status lock_entry
ignore_entry now id actor = do
  change_status now id actor BankReconciliationStatus.pendente BankReconciliationStatus.ignorado
      AuditAction.bank_statement_ignored
  lock_entry id actor.organization_id

-- `restore`
unfoldable pub restore_entry : ℕ → ℕ → Actor → Action StatementEntryRow
unfolding change_status lock_entry
restore_entry now id actor = do
  change_status now id actor BankReconciliationStatus.ignorado BankReconciliationStatus.pendente
      AuditAction.bank_statement_restored
  lock_entry id actor.organization_id
