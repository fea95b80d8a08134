-- ===== src/Receivables/Keeps.antt =====
-- The requests of src/receivables/receivables.service.ts and a property of the tables of the finance
-- services that their updates keep.
use harpia_api.Prelude.{
  ℕ, ◌+◌, ◌≡◌, Bool, true, false, ◌||◌, ◌&&◌, not, Option, none, some, ◌∷◌, [], ◌++◌, ltb, ◌==◌,
  is_some, Bool-cases, inl, inr, Text,
}
use harpia_api.Table.{find_first, modify}
use harpia_api.Store.{
  BankAccountRow, ReceivableRow, PaymentRow, TransactionRow, SaleRow, Database, Actor, state_of,
  is_cancelado, is_current, Ensures, state_of-Ensures, Ensures-pure, Ensures-get, Ensures-row,
  Ensures-guard, Ensures-write, Ensures-then, Ensures-found, Ensures-or_raise, Ensures-transaction,
  Ensures-record_one, Ensures-recorded_one,
}
use harpia_api.Cash.Tables.{CashTables, cash_of}
use harpia_api.Receivables.Payments.{
  lock_payment, payment_key, require_bank_account, receivable_key, RecordPaymentDto,
  lock_receivable, sync_sale_status, sync_locked_sale, same_sale_status, next_sale_status, owed_for,
  audit_unmatched, pay, record_payment, refund, reverse_payment, withdraw, cancel,
  TransactionContext, received, new_payment, new_transaction, refunded, reversed, withdrawn,
  is_matched, freed,
}

-- The tables after `recordPayment`.
abbrev pub paid_tables :
    ℕ
    → ℕ
    → Actor
    → RecordPaymentDto
    → ReceivableRow
    → BankAccountRow
    → TransactionContext
    → CashTables
    → CashTables
paid_tables payment_id transaction_id actor dto r account context c = record c {
  receivables = modify (λ x. x.id == r.id) (received r account dto) c.receivables;
  payments = c.payments ++ new_payment payment_id actor r account dto ∷ [];
  transactions =
      c.transactions ++ new_transaction transaction_id payment_id actor r account context dto ∷ [];
}

-- The tables after `reversePayment`.
abbrev pub refunded_tables :
    ℕ → Actor → Text → ReceivableRow → PaymentRow → TransactionRow → CashTables → CashTables
refunded_tables now actor reason r p t c = record c {
  receivables = modify (λ x. x.id == r.id) (refunded r p) c.receivables;
  payments = modify (λ x. x.id == p.id) (reversed now actor reason) c.payments;
  transactions =
      modify (λ x. x.payment_id == p.id) (λ x. record x { reversed_at = some now }) c.transactions;
  entries = modify (is_matched t.id) freed c.entries;
}

-- The tables after `cancel`.
abbrev pub withdrawn_tables : ℕ → ReceivableRow → CashTables → CashTables
withdrawn_tables now r c = record c {
  receivables = modify (λ x. x.id == r.id) (withdrawn now) c.receivables;
}

module _ {E : Database → Type 0} (P : CashTables → Type 0) where
  Ensures-sync_locked :
      (sale : Option SaleRow) (actor : Actor) (db : Database)
      → P (cash_of db)
      → Ensures (λ _ d. P (cash_of d)) E (sync_locked_sale sale actor db)
  unfolding sync_locked_sale
  Ensures-sync_locked none actor db valid = Ensures-pure tt db valid
  Ensures-sync_locked (some sale) actor db valid =
      Ensures-get _ _ _
        (elim (Bool-cases (
          not (is_current sale.status)
          || same_sale_status sale.status
              (next_sale_status (owed_for sale.id actor.organization_id db)))) [
                | inl e ↦ rw e (Ensures-pure tt db valid)
                | inr e ↦ rw e (Ensures-write _ _ _ (Ensures-recorded_one _ _ valid))
              ])

  -- The status of the sale stands in another table; bringing it up to date does not fail.
  pub Ensures-sync :
      (sale_id : Option ℕ) (actor : Actor) (db : Database)
      → P (cash_of db)
      → Ensures (λ _ d. P (cash_of d)) E (sync_sale_status sale_id actor db)
  unfolding sync_sale_status
  Ensures-sync none actor db valid = Ensures-pure tt db valid
  Ensures-sync (some id) actor db valid = Ensures-get _ _ _ (
      Ensures-sync_locked
        (find_first (λ s. s.id == id && s.organization_id == actor.organization_id) db.sales) actor
        db valid)

  pub Ensures-audit_unmatched :
      (b : Bool) (actor : Actor) (id : ℕ) (db : Database)
      → P (cash_of db)
      → Ensures (λ _ d. P (cash_of d)) E (audit_unmatched b actor id db)
  unfolding audit_unmatched
  Ensures-audit_unmatched false actor id db h = Ensures-pure _ _ h
  Ensures-audit_unmatched true actor id db h = Ensures-recorded_one _ _ h

module _ (P : CashTables → Type 0) (db : Database) (valid : P (cash_of db)) where
  -- `findOne` only reads.
  find_one-Keeps :
      (id org : ℕ) (d : Database)
      → P (cash_of d)
      → Ensures (λ _ d'. P (cash_of d')) (λ d'. P (cash_of d')) (lock_receivable id org d)
  unfolding lock_receivable
  find_one-Keeps id org d h = Ensures-get _ _ _ (Ensures-or_raise _ _ _ (λ a e. h) h)

  pub record_payment-Keeps :
      (now id payment_id transaction_id : ℕ) (actor : Actor) (dto : RecordPaymentDto)
      → ((r : ReceivableRow) (account : BankAccountRow) (context : TransactionContext)
          → find_first (receivable_key id actor.organization_id) db.receivables ≡ some r
          → ltb r.adjusted_amount (r.paid_amount + dto.amount) ≡ false
          → P (paid_tables payment_id transaction_id actor dto r account context (cash_of db)))
      → P (cash_of (state_of (record_payment now id payment_id transaction_id actor dto db)))
  unfolding record_payment pay lock_receivable require_bank_account
  record_payment-Keeps now id payment_id transaction_id actor dto step =
      state_of-Ensures (λ d. P (cash_of d)) _
        (Ensures-guard _ _ _ _
          (λ _.
            Ensures-then (λ _ d. P (cash_of d)) _ _ _
              (Ensures-transaction _ _
                (Ensures-found _ _ _ _
                  (λ r found.
                    Ensures-guard _ _ _ _
                      (λ _.
                        Ensures-guard _ _ _ _
                          (λ _.
                            Ensures-guard _ _ _ _
                              (λ enough.
                                Ensures-found _ _ _ _
                                  (λ account _. Ensures-get _ _ _ (
                                    Ensures-write _ _ _ (
                                      Ensures-write _ _ _ (
                                        Ensures-write _ _ _ (
                                          Ensures-record_one _ _ _ (
                                            Ensures-record_one _ _ _ (
                                              Ensures-sync P r.sale_id actor _
                                                (step r account _ found enough))))))))
                                  tt)
                              tt)
                          tt)
                      tt)
                  tt)
                valid)
              (λ _ d. find_one-Keeps id actor.organization_id d))
          valid)

  pub reverse_payment-Keeps :
      (now id payment_id : ℕ) (actor : Actor) (reason : Text)
      → ((r : ReceivableRow) (p : PaymentRow) (t : TransactionRow)
          → find_first (receivable_key id actor.organization_id) db.receivables ≡ some r
          → find_first (payment_key payment_id r.id actor.organization_id) db.payments ≡ some p
          → is_some p.reversed_at ≡ false
          → ltb r.paid_amount p.amount ≡ false
          → find_first (λ x. x.payment_id == p.id) db.transactions ≡ some t
          → P (refunded_tables now actor reason r p t (cash_of db)))
      → P (cash_of (state_of (reverse_payment now id payment_id actor reason db)))
  unfolding reverse_payment refund lock_receivable lock_payment
  reverse_payment-Keeps now id payment_id actor reason step =
      state_of-Ensures (λ d. P (cash_of d)) _
        (Ensures-then (λ _ d. P (cash_of d)) _ _ _
          (Ensures-transaction _ _
            (Ensures-found _ _ _ _
              (λ r found.
                Ensures-found _ _ _ _
                  (λ p paid.
                    Ensures-guard _ _ _ _
                      (λ fresh.
                        Ensures-guard _ _ _ _
                          (λ enough. Ensures-write _ _ _ (
                            Ensures-get _ _ _ (
                              Ensures-row _ _ _ _
                                (λ t posted. Ensures-write _ _ _ (
                                  Ensures-get _ _ _ (
                                    Ensures-write _ _ _ (
                                      Ensures-write _ _ _ (
                                        Ensures-record_one _ _ _ (
                                          Ensures-then (λ _ d. P (cash_of d)) _ _ _
                                            (Ensures-audit_unmatched P _ actor _ _
                                              (step r p t found paid fresh enough posted))
                                            (λ _ d. Ensures-sync P r.sale_id actor d)))))))
                                tt)))
                          tt)
                      tt)
                  tt)
              tt)
            valid)
          (λ _ d. find_one-Keeps id actor.organization_id d))

  pub cancel-Keeps :
      (now id : ℕ) (actor : Actor)
      → ((r : ReceivableRow)
          → find_first (receivable_key id actor.organization_id) db.receivables ≡ some r
          → not (r.paid_amount == 0) ≡ false
          → P (withdrawn_tables now r (cash_of db)))
      → P (cash_of (state_of (cancel now id actor db)))
  unfolding cancel withdraw lock_receivable
  cancel-Keeps now id actor step =
      state_of-Ensures (λ d. P (cash_of d)) _
        (Ensures-then (λ _ d. P (cash_of d)) _ _ _
          (Ensures-transaction _ _
            (Ensures-found _ _ _ _
              (λ r found. elim (Bool-cases (is_cancelado r.status)) [
                | inl e ↦ rw e (Ensures-pure tt db valid)
                | inr e ↦ rw e (
                    Ensures-guard _ _ _ _
                      (λ unpaid. Ensures-write _ _ _ (
                        Ensures-record_one _ _ _
                          (Ensures-sync P r.sale_id actor _ (step r found unpaid))))
                      tt)
              ])
              tt)
            valid)
          (λ _ d. find_one-Keeps id actor.organization_id d))
