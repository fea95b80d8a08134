-- ===== src/Cash/Refinement.antt =====
-- The payables that src/finance/payables.service.ts writes, as accounts that owe an amount.
use mathlib.Core.Path.{subst}
use harpia_api.Prelude.{ℕ, ◌+◌, ◌-◌, ◌≤◌, Text, refl, ◌==◌, arith, or_else}
use harpia_api.Table.{find_first_holds, find_first-All, modify}
use harpia_api.Store.{
  Database, Actor, state_of, state_of-Ensures, Ensures-found, Ensures-bind, Ensures-transaction,
  Ensures-get, Ensures-write, Ensures-record_one, Ensures-pure, Ensures-check,
}
use harpia_api.Receivables.Payments.{RecordPaymentDto, require_bank_account}
use harpia_api.Receivables.Keeps.{record_payment-Keeps, reverse_payment-Keeps, cancel-Keeps}
use harpia_api.Payables.Changes.{
  payable_key, UpdatePayableDto, update_payable, cancel_payable, updated_payable, cancelled_payable,
}
use harpia_api.Payables.Payments.{
  pay_payable, reverse_payable_payment, payable_payment_key, paid_payable, restored_payable,
}
use harpia_api.Payables.Account.{payable-IsSettled}
use harpia_api.Payables.Keeps.{pay_payable-Keeps, reverse_payable_payment-Keeps}
use harpia_api.Payables.RowKeeps.{cancel_payable-Keeps, create_payable-Keeps, update_payable-Keeps}
use harpia_api.Payables.Due.{mark_commission_due-Keeps}
use harpia_api.Reconciliation.Import.{Texts, ImportStatementDto, import_statement, import_rows}
use harpia_api.Reconciliation.Keeps.{match_entry-Keeps, release-Keeps}
use harpia_api.Cash.Tables.{CashTables, cash_of}
use harpia_api.Cash.Books.{IsBooked}
use harpia_api.Cash.Requests.{CashRequest, serve, IsAdmissible}
use harpia_api.Cash.Balance.{
  HasMoved, HasMoved-refl, HasMoved-append, HasMoved-modify, payable_status-standing,
  restored_status-standing, updated_status-standing, is_due_lem, by_standing, pay, refund, restate,
  cancel,
}

module _ (db : Database) (valid : IsBooked db) where
  abbrev Moves : CashTables → Type 0
  Moves c = HasMoved db.payables c.payables

  still : Moves (cash_of db)
  still = HasMoved-refl db.payables

  import-Moves :
      (texts : Texts) (actor : Actor) (dto : ImportStatementDto)
      → Moves (cash_of (state_of (import_statement texts actor dto db)))
  unfolding import_statement import_rows require_bank_account
  import-Moves texts actor dto =
      state_of-Ensures (λ d. Moves (cash_of d)) _
        (Ensures-found _ _ _ _
          (λ account _.
            Ensures-bind (λ _ d. Moves (cash_of d)) _ _ _
              (Ensures-transaction _ _
                (Ensures-check _ _ _
                  (λ _.
                    Ensures-get _ _ _
                      (Ensures-write _ _ _ (Ensures-record_one _ _ _ (Ensures-pure _ _ still))))
                  tt)
                still)
              (λ n d h. Ensures-pure _ _ h))
          still)

  pay-Moves :
      (now id payment_id transaction_id : ℕ) (actor : Actor) (dto : RecordPaymentDto)
      → 1 ≤ dto.amount
      → Moves (cash_of (state_of (pay_payable now id payment_id transaction_id actor dto db)))
  pay-Moves now id payment_id transaction_id actor dto amount =
      pay_payable-Keeps Moves db still now id payment_id transaction_id actor dto
        (λ r account found going owing enough.
          HasMoved-modify db.payables id actor.organization_id r valid.payables.ids found
            (paid_payable r account dto) (λ x. refl)
            (by_standing _ _ _
              (payable_status-standing (r.paid_amount + dto.amount) r.original_amount (omega arith))
              (pay dto.amount amount (is_due_lem r.status going owing) (ground arith))))

  refund-Moves :
      (now id payment_id : ℕ) (actor : Actor) (reason : Text)
      → Moves (cash_of (state_of (reverse_payable_payment now id payment_id actor reason db)))
  refund-Moves now id payment_id actor reason =
      reverse_payable_payment-Keeps Moves db still now id payment_id actor reason
        (λ r p t found paid _ enough _.
          let settled =
            payable-IsSettled id actor.organization_id db.payables db.payments r valid.payables
              found in
          let positive : 1 ≤ p.amount =
            find_first-All (λ x. 1 ≤ x.amount)
              (payable_payment_key payment_id r.id actor.organization_id) db.payments p
              valid.payables.positive paid in
          let within : p.amount ≤ r.paid_amount = ground arith in
          HasMoved-modify db.payables id actor.organization_id r valid.payables.ids found
            (restored_payable r p) (λ x. refl)
            (by_standing _ _ _
              (restored_status-standing (r.paid_amount - p.amount) r.original_amount
                (omega (arith, settled.within)))
              (refund p.amount positive within)))

  cancel-Moves :
      (now id : ℕ) (actor : Actor) → Moves (cash_of (state_of (cancel_payable now id actor db)))
  cancel-Moves now id actor = cancel_payable-Keeps Moves db still now id actor (λ r found unpaid.
      subst
        (λ k. HasMoved db.payables (modify (λ x. x.id == k) (cancelled_payable now) db.payables))
        (ground
          (arith, find_first_holds (payable_key id actor.organization_id) db.payables r found))
        (HasMoved-modify db.payables id actor.organization_id r valid.payables.ids found
          (cancelled_payable now) (λ x. refl) (cancel (ground arith))))

  update-Moves :
      (id : ℕ) (actor : Actor) (dto : UpdatePayableDto)
      → Moves (cash_of (state_of (update_payable id actor dto db)))
  update-Moves id actor dto = update_payable-Keeps Moves db still id actor dto (λ r found enough.
      subst
        (λ k. HasMoved db.payables (modify (λ x. x.id == k) (updated_payable r dto) db.payables))
        (ground
          (arith, find_first_holds (payable_key id actor.organization_id) db.payables r found))
        (HasMoved-modify db.payables id actor.organization_id r valid.payables.ids found
          (updated_payable r dto) (λ x. refl)
          (by_standing _ _ _
            (updated_status-standing r.paid_amount (or_else dto.original_amount r.original_amount))
            (restate (or_else dto.original_amount r.original_amount) (ground arith)))))

-- From tables that agree, a request to the finance services, where payments are of at least one cent
-- and new rows get new identifiers, does to each payable what the account of an amount allows: it stays
-- as it is, is paid while it is due and by no more than is owed, has a payment refunded, is restated to
-- no less than is paid, or is cancelled with nothing paid, and stands by what is paid of it.
pub serve_refines :
    (r : CashRequest) (db : Database)
    → IsAdmissible r db
    → IsBooked db
    → HasMoved db.payables (serve r db).payables
serve_refines (CashRequest.receiving now id payment_id transaction_id actor dto) db ok valid =
    record_payment-Keeps (Moves db valid) db (still db valid) now id payment_id transaction_id actor
      dto (λ r account context found enough. still db valid)
serve_refines (CashRequest.returning now id payment_id actor reason) db ok valid =
    reverse_payment-Keeps (Moves db valid) db (still db valid) now id payment_id actor reason
      (λ r p t found paid fresh enough posted. still db valid)
serve_refines (CashRequest.waiving now id actor) db ok valid =
    cancel-Keeps (Moves db valid) db (still db valid) now id actor
      (λ r found unpaid. still db valid)
serve_refines (CashRequest.owing id actor dto) db ok valid =
    create_payable-Keeps (Moves db valid) db (still db valid) id actor dto
      (HasMoved-append db.payables _)
serve_refines (CashRequest.commissioning now id commission_id actor due_date) db ok valid =
    mark_commission_due-Keeps (Moves db valid) db id (still db valid)
      (λ new unpaid. HasMoved-append db.payables new) now commission_id actor due_date
serve_refines (CashRequest.correcting id actor dto) db ok valid = update-Moves db valid id actor dto
serve_refines (CashRequest.paying now id payment_id transaction_id actor dto) db
      (amount, fresh, new) valid =
    pay-Moves db valid now id payment_id transaction_id actor dto amount
serve_refines (CashRequest.reversing now id payment_id actor reason) db ok valid =
    refund-Moves db valid now id payment_id actor reason
serve_refines (CashRequest.cancelling now id actor) db ok valid = cancel-Moves db valid now id actor
serve_refines (CashRequest.importing texts actor dto) db ok valid =
    import-Moves db valid texts actor dto
serve_refines (CashRequest.matching now id transaction_id actor) db ok valid =
    match_entry-Keeps (Moves db valid) db (still db valid) now id transaction_id actor
      (λ e t found there agrees free. still db valid)
serve_refines (CashRequest.unmatching now id actor) db ok valid =
    (release-Keeps (Moves db valid) db (still db valid) now id actor
      (λ e target found free. still db valid)).0
serve_refines (CashRequest.ignoring now id actor) db ok valid =
    (release-Keeps (Moves db valid) db (still db valid) now id actor
      (λ e target found free. still db valid)).1
serve_refines (CashRequest.restoring now id actor) db ok valid =
    (release-Keeps (Moves db valid) db (still db valid) now id actor
      (λ e target found free. still db valid)).2
