-- ===== src/Reconciliation/Keeps.antt =====
-- The requests of src/finance/bank-reconciliation.service.ts and a property of the tables of the
-- finance services that their updates keep.
use harpia_api.Prelude.{ℕ, ◌≡◌, refl, Bool, true, false, none, some, ◌==◌, is_value, arith}
use harpia_api.Table.{find_first, modify}
use harpia_api.Store.{
  BankReconciliationStatus, StatementEntryRow, TransactionRow, Database, Actor, AuditAction, ◌>>◌,
  state_of, Ensures, state_of-Ensures, Ensures-get, Ensures-guard, Ensures-write, Ensures-then,
  Ensures-found, Ensures-or_raise, Ensures-transaction, Ensures-unique, Ensures-recorded_one,
}
use harpia_api.Cash.Tables.{CashTables, cash_of}
use harpia_api.Reconciliation.Matching.{
  entry_key, transaction_key, lock_entry, lock_transaction, mismatches, matched_entry, match_locked,
  match_entry, released_entry, change_status, unmatch_entry, ignore_entry, restore_entry,
}

abbrev pub is_conciliado : BankReconciliationStatus → Bool
is_conciliado BankReconciliationStatus.conciliado = true
is_conciliado _ = false

abbrev pub with_entry :
    StatementEntryRow → (StatementEntryRow → StatementEntryRow) → CashTables → CashTables
with_entry e f c = record c { entries = modify (λ x. x.id == e.id) f c.entries }

module _ (P : CashTables → Type 0) (db : Database) (valid : P (cash_of db)) where
  find_entry-Keeps :
      (id org : ℕ) (d : Database)
      → P (cash_of d)
      → Ensures (λ _ d'. P (cash_of d')) (λ d'. P (cash_of d')) (lock_entry id org d)
  unfolding lock_entry
  find_entry-Keeps id org d h = Ensures-get _ _ _ (Ensures-or_raise _ _ _ (λ a e. h) h)

  pub match_entry-Keeps :
      (now id transaction_id : ℕ) (actor : Actor)
      → ((e : StatementEntryRow) (t : TransactionRow)
          → find_first (entry_key id actor.organization_id) db.statement_entries ≡ some e
          → find_first (transaction_key transaction_id actor.organization_id) db.transactions
            ≡ some t
          → mismatches e t ≡ false
          → find_first (λ x. is_value x.matched_transaction_id t.id) db.statement_entries ≡ none
          → P (with_entry e (matched_entry now t.id) (cash_of db)))
      → P (cash_of (state_of (match_entry now id transaction_id actor db)))
  unfolding match_entry match_locked lock_entry lock_transaction
  match_entry-Keeps now id transaction_id actor step =
      state_of-Ensures (λ d. P (cash_of d)) _
        (Ensures-then (λ _ d. P (cash_of d)) _ _ _
          (Ensures-unique _ _ _ (
            Ensures-transaction _ _
              (Ensures-found _ _ _ _
                (λ e found.
                  Ensures-guard _ _ _ _
                    (λ _.
                      Ensures-found _ _ _ _
                        (λ t there.
                          Ensures-guard _ _ _ _
                            (λ agrees. Ensures-get _ _ _ (
                              Ensures-guard _ _ _ _
                                (λ free. Ensures-write _ _ _ (
                                  Ensures-recorded_one _ _
                                    (step e t found there agrees (ground arith))))
                                tt))
                            tt)
                        tt)
                    tt)
                tt)
              valid))
          (λ _ d. find_entry-Keeps id actor.organization_id d))

  change_status-Keeps :
      (now id : ℕ) (actor : Actor) (expected target : BankReconciliationStatus)
      (action : AuditAction)
      → ((e : StatementEntryRow)
          → find_first (entry_key id actor.organization_id) db.statement_entries ≡ some e
          → P (with_entry e (released_entry now target) (cash_of db)))
      → P (
          cash_of (
            state_of (
              (change_status now id actor expected target action
                  >> lock_entry id actor.organization_id)
                db)))
  unfolding change_status lock_entry
  change_status-Keeps now id actor expected target action step =
      state_of-Ensures (λ d. P (cash_of d)) _
        (Ensures-then (λ _ d. P (cash_of d)) _ _ _
          (Ensures-transaction _ _
            (Ensures-found _ _ _ _
              (λ e found.
                Ensures-guard _ _ _ _
                  (λ _. Ensures-write _ _ _ (Ensures-recorded_one _ _ (step e found))) tt)
              tt)
            valid)
          (λ _ d. find_entry-Keeps id actor.organization_id d))

  -- `unmatch`, `ignore` and `restore`
  pub release-Keeps :
      (now id : ℕ) (actor : Actor)
      → ((e : StatementEntryRow) (target : BankReconciliationStatus)
          → find_first (entry_key id actor.organization_id) db.statement_entries ≡ some e
          → is_conciliado target ≡ false
          → P (with_entry e (released_entry now target) (cash_of db)))
      → P (cash_of (state_of (unmatch_entry now id actor db)))
        × P (cash_of (state_of (ignore_entry now id actor db)))
        × P (cash_of (state_of (restore_entry now id actor db)))
  unfolding unmatch_entry ignore_entry restore_entry
  release-Keeps now id actor step = (
    change_status-Keeps now id actor BankReconciliationStatus.conciliado
        BankReconciliationStatus.pendente AuditAction.bank_transaction_unmatched
        (λ e found. step e BankReconciliationStatus.pendente found refl),
    change_status-Keeps now id actor BankReconciliationStatus.pendente
        BankReconciliationStatus.ignorado AuditAction.bank_statement_ignored
        (λ e found. step e BankReconciliationStatus.ignorado found refl),
    change_status-Keeps now id actor BankReconciliationStatus.ignorado
        BankReconciliationStatus.pendente AuditAction.bank_statement_restored
        (λ e found. step e BankReconciliationStatus.pendente found refl),
  )
