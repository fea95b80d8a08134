-- ===== src/Payables/Keeps.antt =====
-- The payments of src/finance/payables.service.ts and a property of the tables of the finance services
-- that their updates keep.
use harpia_api.Prelude.{
  ℕ, ◌+◌, ◌≡◌, false, Option, none, some, ◌∷◌, [], ◌++◌, ltb, ◌==◌, is_some, Text,
}
use harpia_api.Table.{find_first, modify}
use harpia_api.Store.{
  BankAccountRow, PayableStatus, PayableRow, PaymentRow, TransactionRow, Database, Actor, state_of,
  Ensures, state_of-Ensures, Ensures-pure, Ensures-get, Ensures-row, Ensures-row_then,
  Ensures-guard, Ensures-write, Ensures-written, Ensures-then, Ensures-found, Ensures-or_raise,
  Ensures-transaction, Ensures-recorded_many, Ensures-record_one, is_payable_pago,
}
use harpia_api.Cash.Tables.{CashTables, cash_of}
use harpia_api.Receivables.Payments.{
  RecordPaymentDto, require_bank_account, reversed, is_matched, freed,
}
use harpia_api.Receivables.Keeps.{Ensures-audit_unmatched}
use harpia_api.Payables.Changes.{payable_key, lock_payable, is_payable_cancelado}
use harpia_api.Payables.Payments.{
  payable_payment_key, lock_payable_payment, sync_return, sync_commission, sync_source,
  outgoing_payment, outgoing_transaction, paid_payable, pay_out, pay_payable, restored_payable,
  take_back, reverse_payable_payment,
}

-- The tables after `recordPayment`.
abbrev pub paid_out_tables :
    ℕ → ℕ → Actor → RecordPaymentDto → PayableRow → BankAccountRow → CashTables → CashTables
paid_out_tables payment_id transaction_id actor dto r account c = record c {
  payables = modify (λ x. x.id == r.id) (paid_payable r account dto) c.payables;
  payments = c.payments ++ outgoing_payment payment_id actor r account dto ∷ [];
  transactions =
      c.transactions ++ outgoing_transaction transaction_id payment_id actor r account dto ∷ [];
}

-- The tables after `reversePayment`.
abbrev pub taken_back_tables :
    ℕ → Actor → Text → PayableRow → PaymentRow → TransactionRow → CashTables → CashTables
taken_back_tables now actor reason r p t c = record c {
  payables = modify (λ x. x.id == r.id) (restored_payable r p) c.payables;
  payments = modify (λ x. x.id == p.id) (reversed now actor reason) c.payments;
  transactions =
      modify (λ x. x.payment_id == p.id) (λ x. record x { reversed_at = some now }) c.transactions;
  entries = modify (is_matched t.id) freed c.entries;
}

module _ {E : Database → Type 0} (P : CashTables → Type 0)
    (undo : (d : Database) → P (cash_of d) → E d) where
  sync_return-Keeps :
      (id : Option ℕ) (status : PayableStatus) (date paid : ℕ) (db : Database)
      → P (cash_of db)
      → Ensures (λ _ d. P (cash_of d)) E (sync_return id status date paid db)
  unfolding sync_return
  sync_return-Keeps none status date paid db h = Ensures-pure _ _ h
  sync_return-Keeps (some id) status date paid db h =
      Ensures-get _ _ _ (Ensures-row_then _ _ _ _ (λ r _. Ensures-written _ _ h) (undo db h))

  sync_commission-Keeps :
      (id : Option ℕ) (status : PayableStatus) (db : Database)
      → P (cash_of db)
      → Ensures (λ _ d. P (cash_of d)) E (sync_commission id status db)
  unfolding sync_commission
  sync_commission-Keeps none status db h = Ensures-pure _ _ h
  sync_commission-Keeps (some id) status db h =
      Ensures-get _ _ _ (Ensures-row_then _ _ _ _ (λ r _. Ensures-written _ _ h) (undo db h))

  -- Returns and sales stand in other tables.
  sync_source-Keeps :
      (r : PayableRow) (status : PayableStatus) (date paid : ℕ) (db : Database)
      → P (cash_of db)
      → Ensures (λ _ d. P (cash_of d)) E (sync_source r status date paid db)
  unfolding sync_source
  sync_source-Keeps r status date paid db h =
      Ensures-then (λ _ d. P (cash_of d)) _ _ _
        (sync_return-Keeps r.investor_return_id status date paid db h)
        (λ _ d. sync_commission-Keeps r.sale_commission_id status d)

module _ (P : CashTables → Type 0) (db : Database) (valid : P (cash_of db)) where
  -- The row that a request returns is read.
  pub find_payable-Keeps :
      (id org : ℕ) (d : Database)
      → P (cash_of d)
      → Ensures (λ _ d'. P (cash_of d')) (λ d'. P (cash_of d')) (lock_payable id org d)
  unfolding lock_payable
  find_payable-Keeps id org d h = Ensures-get _ _ _ (Ensures-or_raise _ _ _ (λ a e. h) h)

  pub pay_payable-Keeps :
      (now id payment_id transaction_id : ℕ) (actor : Actor) (dto : RecordPaymentDto)
      → ((r : PayableRow) (account : BankAccountRow)
          → find_first (payable_key id actor.organization_id) db.payables ≡ some r
          → is_payable_cancelado r.status ≡ false
          → is_payable_pago r.status ≡ false
          → ltb r.original_amount (r.paid_amount + dto.amount) ≡ false
          → P (paid_out_tables payment_id transaction_id actor dto r account (cash_of db)))
      → P (cash_of (state_of (pay_payable now id payment_id transaction_id actor dto db)))
  unfolding pay_payable pay_out lock_payable require_bank_account
  pay_payable-Keeps now id payment_id transaction_id actor dto step =
      state_of-Ensures (λ d. P (cash_of d)) _
        (Ensures-guard _ _ _ _
          (λ _.
            Ensures-then (λ _ d. P (cash_of d)) _ _ _
              (Ensures-transaction _ _
                (Ensures-found _ _ _ _
                  (λ r found.
                    Ensures-guard _ _ _ _
                      (λ going.
                        Ensures-guard _ _ _ _
                          (λ owing.
                            Ensures-guard _ _ _ _
                              (λ enough.
                                Ensures-found _ _ _ _
                                  (λ account _. Ensures-write _ _ _ (
                                    Ensures-write _ _ _ (
                                      Ensures-write _ _ _ (
                                        Ensures-then (λ _ d. P (cash_of d)) _ _ _
                                          (sync_source-Keeps P (λ d h. tt) r _ _ _ _
                                            (step r account found going owing enough))
                                          (λ _ d. Ensures-recorded_many _ d)))))
                                  tt)
                              tt)
                          tt)
                      tt)
                  tt)
                valid)
              (λ _ d. find_payable-Keeps id actor.organization_id d))
          valid)

  pub reverse_payable_payment-Keeps :
      (now id payment_id : ℕ) (actor : Actor) (reason : Text)
      → ((r : PayableRow) (p : PaymentRow) (t : TransactionRow)
          → find_first (payable_key id actor.organization_id) db.payables ≡ some r
          → find_first (payable_payment_key payment_id r.id actor.organization_id) db.payments
            ≡ some p
          → is_some p.reversed_at ≡ false
          → ltb r.paid_amount p.amount ≡ false
          → find_first (λ x. x.payment_id == p.id) db.transactions ≡ some t
          → P (taken_back_tables now actor reason r p t (cash_of db)))
      → P (cash_of (state_of (reverse_payable_payment now id payment_id actor reason db)))
  unfolding reverse_payable_payment take_back lock_payable lock_payable_payment
  reverse_payable_payment-Keeps now id payment_id actor reason step =
      state_of-Ensures (λ d. P (cash_of d)) _
        (Ensures-then (λ _ d. P (cash_of d)) _ _ _
          (Ensures-transaction _ _
            (Ensures-found _ _ _ _
              (λ r found.
                Ensures-found _ _ _ _
                  (λ p paid.
                    Ensures-guard _ _ _ _
                      (λ fresh.
                        Ensures-guard _ _ _ _
                          (λ enough. Ensures-write _ _ _ (
                            Ensures-get _ _ _ (
                              Ensures-row _ _ _ _
                                (λ t posted. Ensures-write _ _ _ (
                                  Ensures-get _ _ _ (
                                    Ensures-write _ _ _ (
                                      Ensures-write _ _ _ (
                                        Ensures-then (λ _ d. P (cash_of d)) _ _ _
                                          (sync_source-Keeps P (λ d h. tt) r _ _ _ _
                                            (step r p t found paid fresh enough posted))
                                          (λ _ d h.
                                            Ensures-record_one _ _ _
                                              (Ensures-audit_unmatched P _ actor _ _ h)))))))
                                tt)))
                          tt)
                      tt)
                  tt)
              tt)
            valid)
          (λ _ d. find_payable-Keeps id actor.organization_id d))
