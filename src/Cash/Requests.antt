-- ===== src/Cash/Requests.antt =====
-- Sequences of requests to the finance services.
use mathlib.Core.Path.{subst}
use harpia_api.Prelude.{ℕ, Option, ◌≤◌, ◌≡◌, refl, false, List, [], ◌∷◌, ◌==◌, Text, none, arith}
use harpia_api.Table.{find_first_holds, modify, count_by}
use harpia_api.Store.{
  BankReconciliationStatus, StatementEntryRow, TransactionRow, Database, Actor, state_of,
}
use harpia_api.Cash.Journal.{AgreesWith, match-IsJournal, release-IsJournal}
use harpia_api.Cash.Books.{
  AreBooks, IsBooked, record_payment-IsBooked, reverse_payment-IsBooked, cancel-IsBooked,
  pay_payable-IsBooked, reverse_payable_payment-IsBooked,
}
use harpia_api.Ledger.Updates.{insert-IsAccount}
use harpia_api.Receivables.Payments.{RecordPaymentDto, record_payment, reverse_payment, cancel}
use harpia_api.Payables.Changes.{
  CreatePayableDto, UpdatePayableDto, create_payable, update_payable, cancel_payable, new_payable,
  payable_key, cancelled_payable, updated_payable,
}
use harpia_api.Payables.Payments.{pay_payable, reverse_payable_payment}
use harpia_api.Payables.Account.{payable_debts, close-IsPayables, update-IsPayables, IsPayables}
use harpia_api.Payables.RowKeeps.{cancel_payable-Keeps, create_payable-Keeps, update_payable-Keeps}
use harpia_api.Payables.Commissions.{mark_commission_due}
use harpia_api.Payables.Due.{mark_commission_due-Keeps}
use harpia_api.Reconciliation.Matching.{match_entry, unmatch_entry, ignore_entry, restore_entry}
use harpia_api.Reconciliation.Import.{Texts, ImportStatementDto, import_statement}
use harpia_api.Cash.Imports.{import_statement-IsBooked}
use harpia_api.Reconciliation.Keeps.{match_entry-Keeps, release-Keeps, is_conciliado}

module _ (now : ℕ) (actor : Actor) (db : Database) (valid : IsBooked db) where
  cancel_payable-IsBooked : (id : ℕ) → IsBooked (state_of (cancel_payable now id actor db))
  cancel_payable-IsBooked id =
      cancel_payable-Keeps AreBooks db valid now id actor (λ r found unpaid. record {
        receivables = valid.receivables;
        payables =
            subst
              (λ k.
                IsPayables (modify (λ x. x.id == k) (cancelled_payable now) db.payables)
                  db.payments)
              (ground (
                arith,
                find_first_holds (payable_key id actor.organization_id) db.payables r found,
              ))
              (close-IsPayables id actor.organization_id db.payables db.payments r valid.payables
                found now unpaid);
        single = valid.single;
        journal = valid.journal;
      })

  create_payable-IsBooked :
      (id : ℕ) (dto : CreatePayableDto)
      → count_by (λ p. p.id == id) db.payables ≡ 0
      → IsBooked (state_of (create_payable id actor dto db))
  create_payable-IsBooked id dto fresh =
      create_payable-Keeps AreBooks db valid id actor dto (record {
        receivables = valid.receivables;
        payables =
            insert-IsAccount payable_debts db.payables db.payments
              (new_payable id actor.organization_id dto) fresh refl refl valid.payables;
        single = valid.single;
        journal = valid.journal;
      })

  mark_commission_due-IsBooked :
      (id commission_id : ℕ) (due_date : Option ℕ)
      → count_by (λ p. p.id == id) db.payables ≡ 0
      → IsBooked (state_of (mark_commission_due now id commission_id actor due_date db))
  mark_commission_due-IsBooked id commission_id due_date fresh =
      mark_commission_due-Keeps AreBooks db id valid
        (λ new (named, unpaid, status). record {
          receivables = valid.receivables;
          payables =
              insert-IsAccount payable_debts db.payables db.payments new (rw named fresh) unpaid
                (rw status refl) valid.payables;
          single = valid.single;
          journal = valid.journal;
        })
        now commission_id actor due_date

  update_payable-IsBooked :
      (id : ℕ) (dto : UpdatePayableDto) → IsBooked (state_of (update_payable id actor dto db))
  update_payable-IsBooked id dto =
      update_payable-Keeps AreBooks db valid id actor dto (λ r found enough. record {
        receivables = valid.receivables;
        payables =
            subst
              (λ k.
                IsPayables (modify (λ x. x.id == k) (updated_payable r dto) db.payables)
                  db.payments)
              (ground (
                arith,
                find_first_holds (payable_key id actor.organization_id) db.payables r found,
              ))
              (update-IsPayables id actor.organization_id db.payables db.payments r valid.payables
                found dto enough);
        single = valid.single;
        journal = valid.journal;
      })

  match_entry-IsBooked :
      (id transaction_id : ℕ) → IsBooked (state_of (match_entry now id transaction_id actor db))
  match_entry-IsBooked id transaction_id =
      match_entry-Keeps AreBooks db valid now id transaction_id actor
        (λ e t found there agrees free. record {
          receivables = valid.receivables;
          payables = valid.payables;
          single = valid.single;
          journal =
              match-IsJournal db.payments db.transactions db.statement_entries valid.journal e id
                actor.organization_id found now transaction_id t there agrees free;
        })

  AgreesWith-free :
      (ts : List TransactionRow) (e : StatementEntryRow) (target : BankReconciliationStatus)
      → is_conciliado target ≡ false
      → AgreesWith ts e target none
  AgreesWith-free ts e BankReconciliationStatus.conciliado h = cc
  AgreesWith-free ts e BankReconciliationStatus.pendente h = refl
  AgreesWith-free ts e BankReconciliationStatus.ignorado h = refl

  release-IsBooked :
      (id : ℕ)
      → IsBooked (state_of (unmatch_entry now id actor db))
        × IsBooked (state_of (ignore_entry now id actor db))
        × IsBooked (state_of (restore_entry now id actor db))
  release-IsBooked id = release-Keeps AreBooks db valid now id actor (λ e target found free.
      record {
        receivables = valid.receivables;
        payables = valid.payables;
        single = valid.single;
        journal =
            release-IsJournal db.payments db.transactions db.statement_entries valid.journal e id
              actor.organization_id found now target
              (λ x. AgreesWith-free db.transactions x target free);
      })

-- A request to one of the finance services.
pub data CashRequest : Type 0 where
  receiving : (now id payment_id transaction_id : ℕ) → Actor → RecordPaymentDto → CashRequest
  returning : (now id payment_id : ℕ) → Actor → Text → CashRequest
  waiving : (now id : ℕ) → Actor → CashRequest
  owing : (id : ℕ) → Actor → CreatePayableDto → CashRequest
  commissioning : (now id commission_id : ℕ) → Actor → Option ℕ → CashRequest
  correcting : (id : ℕ) → Actor → UpdatePayableDto → CashRequest
  paying : (now id payment_id transaction_id : ℕ) → Actor → RecordPaymentDto → CashRequest
  reversing : (now id payment_id : ℕ) → Actor → Text → CashRequest
  cancelling : (now id : ℕ) → Actor → CashRequest
  importing : Texts → Actor → ImportStatementDto → CashRequest
  matching : (now id transaction_id : ℕ) → Actor → CashRequest
  unmatching : (now id : ℕ) → Actor → CashRequest
  ignoring : (now id : ℕ) → Actor → CashRequest
  restoring : (now id : ℕ) → Actor → CashRequest

abbrev pub serve : CashRequest → Database → Database
serve (receiving now id payment_id transaction_id actor dto) db =
    state_of (record_payment now id payment_id transaction_id actor dto db)
serve (returning now id payment_id actor reason) db =
    state_of (reverse_payment now id payment_id actor reason db)
serve (waiving now id actor) db = state_of (cancel now id actor db)
serve (owing id actor dto) db = state_of (create_payable id actor dto db)
serve (commissioning now id commission_id actor due_date) db =
    state_of (mark_commission_due now id commission_id actor due_date db)
serve (correcting id actor dto) db = state_of (update_payable id actor dto db)
serve (paying now id payment_id transaction_id actor dto) db =
    state_of (pay_payable now id payment_id transaction_id actor dto db)
serve (reversing now id payment_id actor reason) db =
    state_of (reverse_payable_payment now id payment_id actor reason db)
serve (cancelling now id actor) db = state_of (cancel_payable now id actor db)
serve (importing texts actor dto) db = state_of (import_statement texts actor dto db)
serve (matching now id transaction_id actor) db =
    state_of (match_entry now id transaction_id actor db)
serve (unmatching now id actor) db = state_of (unmatch_entry now id actor db)
serve (ignoring now id actor) db = state_of (ignore_entry now id actor db)
serve (restoring now id actor) db = state_of (restore_entry now id actor db)

-- Payments are of at least one cent, and the database gives new rows new identifiers.
abbrev pub IsPosting : (payment_id transaction_id : ℕ) → RecordPaymentDto → Database → Type 0
IsPosting payment_id transaction_id dto db =
    (1 ≤ dto.amount)
    × (count_by (λ p. p.id == payment_id) db.payments ≡ 0)
    × (count_by (λ t. t.id == transaction_id) db.transactions ≡ 0)

abbrev pub IsAdmissible : CashRequest → Database → Type 0
IsAdmissible (receiving now id payment_id transaction_id actor dto) db =
    IsPosting payment_id transaction_id dto db
IsAdmissible (paying now id payment_id transaction_id actor dto) db =
    IsPosting payment_id transaction_id dto db
IsAdmissible (owing id actor dto) db = count_by (λ p. p.id == id) db.payables ≡ 0
IsAdmissible (commissioning now id commission_id actor due_date) db =
    count_by (λ p. p.id == id) db.payables ≡ 0
IsAdmissible _ db = Unit {0}

serve-IsBooked :
    (r : CashRequest) (db : Database) → IsAdmissible r db → IsBooked db → IsBooked (serve r db)
serve-IsBooked (receiving now id payment_id transaction_id actor dto) db (amount, fresh, new)
      valid =
    record_payment-IsBooked now actor db valid id payment_id transaction_id dto amount fresh new
serve-IsBooked (returning now id payment_id actor reason) db ok valid =
    reverse_payment-IsBooked now actor db valid id payment_id reason
serve-IsBooked (waiving now id actor) db ok valid = cancel-IsBooked now actor db valid id
serve-IsBooked (owing id actor dto) db fresh valid =
    create_payable-IsBooked 0 actor db valid id dto fresh
serve-IsBooked (commissioning now id commission_id actor due_date) db fresh valid =
    mark_commission_due-IsBooked now actor db valid id commission_id due_date fresh
serve-IsBooked (correcting id actor dto) db ok valid =
    update_payable-IsBooked 0 actor db valid id dto
serve-IsBooked (paying now id payment_id transaction_id actor dto) db (amount, fresh, new) valid =
    pay_payable-IsBooked now actor db valid id payment_id transaction_id dto amount fresh new
serve-IsBooked (reversing now id payment_id actor reason) db ok valid =
    reverse_payable_payment-IsBooked now actor db valid id payment_id reason
serve-IsBooked (cancelling now id actor) db ok valid = cancel_payable-IsBooked now actor db valid id
serve-IsBooked (importing texts actor dto) db ok valid =
    import_statement-IsBooked texts actor dto db valid
serve-IsBooked (matching now id transaction_id actor) db ok valid =
    match_entry-IsBooked now actor db valid id transaction_id
serve-IsBooked (unmatching now id actor) db ok valid = (release-IsBooked now actor db valid id).0
serve-IsBooked (ignoring now id actor) db ok valid = (release-IsBooked now actor db valid id).1
serve-IsBooked (restoring now id actor) db ok valid = (release-IsBooked now actor db valid id).2

abbrev pub serve_all : List CashRequest → Database → Database
serve_all [] db = db
serve_all (r ∷ rs) db = serve_all rs (serve r db)

abbrev pub AreAdmissible : List CashRequest → Database → Type 0
AreAdmissible [] db = Unit {0}
AreAdmissible (r ∷ rs) db = IsAdmissible r db × AreAdmissible rs (serve r db)

-- From tables that agree, any sequence of requests on receivables, payables and bank statements, where
-- payments are of at least one cent and new rows get new identifiers, leads to tables that agree: the
-- paid amount of each debt is the sum of its unreversed payments, at most what is owed and as its
-- status says, and each matched statement entry stands for an unreversed transaction of its own, of the
-- same account, kind and amount.
pub books_agree :
    (rs : List CashRequest) (db : Database)
    → AreAdmissible rs db
    → IsBooked db
    → IsBooked (serve_all rs db)
books_agree [] db ok valid = valid
books_agree (r ∷ rs) db (ok, later) valid =
    books_agree rs (serve r db) later (serve-IsBooked r db ok valid)
