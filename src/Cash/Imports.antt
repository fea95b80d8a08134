-- ===== src/Cash/Imports.antt =====
-- `import` of src/finance/bank-reconciliation.service.ts and what the tables of the finance services
-- have to agree on.
use harpia_api.Prelude.{
  ℕ, ◌≡◌, refl, none, List, [], ◌∷◌, ◌++◌, ◌==◌, is_some, map, arith, All, All-append, Bool-cases,
  inl, inr,
}
use harpia_api.Table.{find_first, count_by, count_by-append}
use harpia_api.Table.Keys.{next_id, count_by-next_id}
use harpia_api.Store.{
  BankReconciliationStatus, StatementEntryRow, TransactionRow, PaymentRow, Database, Actor,
  state_of, state_of-Ensures, Ensures-found, Ensures-bind, Ensures-transaction, Ensures-get,
  Ensures-write, Ensures-record_one, Ensures-pure, Ensures-check,
}
use harpia_api.Receivables.Payments.{is_matched, require_bank_account}
use harpia_api.Cash.Journal.{AgreesWith, IsJournal}
use harpia_api.Cash.Books.{IsBooked}
use harpia_api.Reconciliation.Import.{
  Texts, ImportEntryDto, ImportStatementDto, Imported, statement_key, insert_entry, insert_entries,
  new_entry, import_rows, import_statement,
}

-- An entry that nobody has looked at.
abbrev pub IsPending : StatementEntryRow → Type 0
IsPending e = (e.status ≡ BankReconciliationStatus.pendente) × (e.matched_transaction_id ≡ none)

module _ (ps : List PaymentRow) (ts : List TransactionRow) where
  add-IsJournal :
      (e : StatementEntryRow) (es : List StatementEntryRow)
      → IsPending e
      → count_by (λ x. x.id == e.id) es ≡ 0
      → IsJournal ps ts es
      → IsJournal ps ts (es ++ e ∷ [])
  add-IsJournal e es (fresh_status, free) fresh valid = record {
    transaction_ids = valid.transaction_ids;
    postings = valid.postings;
    posted = valid.posted;
    entry_ids =
        λ k. ground (arith, valid.entry_ids k, fresh, count_by-append (λ x. x.id == k) es (e ∷ []));
    matched =
        All-append (λ x. AgreesWith ts x x.status x.matched_transaction_id) es (e ∷ [])
          valid.matched (rw fresh_status free, tt);
    once = λ k. ground (arith, free, valid.once k, count_by-append (is_matched k) es (e ∷ []));
  }

  insert_entry-IsJournal :
      (e : StatementEntryRow) (s : Imported)
      → IsPending e
      → IsJournal ps ts s.entries
      → IsJournal ps ts (insert_entry e s).entries
  insert_entry-IsJournal e s pending valid =
      elim (Bool-cases (
        is_some (
          find_first (statement_key e.organization_id e.bank_account_id e.fingerprint)
            s.entries))) [
              | inl h ↦ rw h valid
              | inr h ↦ rw h (
                  add-IsJournal (record e { id = next_id (λ x. x.id) s.entries }) s.entries pending
                    (count_by-next_id (λ x. x.id) s.entries (next_id (λ x. x.id) s.entries)
                      (omega arith))
                    valid)
            ]

  insert_entries-IsJournal :
      (es : List StatementEntryRow) (s : Imported)
      → All IsPending es
      → IsJournal ps ts s.entries
      → IsJournal ps ts (insert_entries es s).entries
  unfolding insert_entries
  insert_entries-IsJournal [] s pending valid = valid
  insert_entries-IsJournal (e ∷ es) s (p, pending) valid =
      insert_entries-IsJournal es (insert_entry e s) pending (insert_entry-IsJournal e s p valid)

new_entry-IsPending :
    (texts : Texts) (org account : ℕ) (es : List ImportEntryDto)
    → All IsPending (map (new_entry texts org account) es)
new_entry-IsPending texts org account [] = tt
new_entry-IsPending texts org account (e ∷ es) =
    ((refl, refl), new_entry-IsPending texts org account es)

pub import_statement-IsBooked :
    (texts : Texts) (actor : Actor) (dto : ImportStatementDto) (db : Database)
    → IsBooked db
    → IsBooked (state_of (import_statement texts actor dto db))
unfolding import_statement import_rows require_bank_account
import_statement-IsBooked texts actor dto db valid = state_of-Ensures IsBooked _ (
    Ensures-found _ _ _ _
      (λ account _.
        Ensures-bind (λ _ d. IsBooked d) _ _ _
          (Ensures-transaction _ _
            (Ensures-check _ _ _
              (λ _. Ensures-get _ _ _ (
                Ensures-write _ _ _ (
                  Ensures-record_one _ _ _ (
                    Ensures-pure _ _ (record {
                      receivables = valid.receivables;
                      payables = valid.payables;
                      single = valid.single;
                      journal =
                          insert_entries-IsJournal db.payments db.transactions
                            (map (new_entry texts actor.organization_id account.id) dto.entries)
                            (record { entries = db.statement_entries; count = 0 })
                            (new_entry-IsPending texts actor.organization_id account.id dto.entries)
                            valid.journal;
                    })))))
              tt)
            valid)
          (λ n d h. Ensures-pure _ _ h))
      valid)
