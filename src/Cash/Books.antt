-- ===== src/Cash/Books.antt =====
-- The requests of the finance services together, and what their tables have to agree on.
use harpia_api.Prelude.{
  ℕ, ◌≤◌, ◌≡◌, refl, false, [], ◌∷◌, ◌==◌, Text, Bool, ◌&&◌, is_some, arith, All, All-append,
}
use harpia_api.Table.{count_by, find_first_holds, find_first-All, modify-All}
use harpia_api.Store.{Database, PaymentRow, Actor, state_of}
use harpia_api.Cash.Tables.{CashTables, cash_of}
use harpia_api.Cash.Journal.{IsJournal, post-IsJournal, reverse-IsJournal}
use harpia_api.Ledger.Updates.{other_payment-IsAccount, other_reversal-IsAccount}
use harpia_api.Receivables.Payments.{
  RecordPaymentDto, record_payment, reverse_payment, cancel, payment_key, new_payment,
  new_transaction, reversed,
}
use harpia_api.Receivables.Ledger.{receivable_debts, IsLedger}
use harpia_api.Receivables.Settlement.{pay-IsLedger, refund-IsLedger, withdraw-IsLedger}
use harpia_api.Receivables.Keeps.{record_payment-Keeps, reverse_payment-Keeps, cancel-Keeps}
use harpia_api.Payables.Payments.{
  pay_payable, reverse_payable_payment, payable_payment_key, outgoing_payment, outgoing_transaction,
}
use harpia_api.Payables.Account.{
  payable_debts, IsPayables, pay_out-IsPayables, take_back-IsPayables,
}
use harpia_api.Payables.Keeps.{pay_payable-Keeps, reverse_payable_payment-Keeps}

-- A payment is for a receivable or for a payable, not for both.
abbrev pub is_double : PaymentRow → Bool
is_double p = is_some p.receivable_id && is_some p.payable_id

-- What the tables of the finance services agree on.
pub record AreBooks (c : CashTables) : Type 0 where
  pub receivables : IsLedger c.receivables c.payments
  pub payables : IsPayables c.payables c.payments
  pub single : All (λ p. is_double p ≡ false) c.payments
  pub journal : IsJournal c.payments c.transactions c.entries

abbrev pub IsBooked : Database → Type 0
IsBooked db = AreBooks (cash_of db)

module _ (now : ℕ) (actor : Actor) (db : Database) (valid : IsBooked db) where
  pub record_payment-IsBooked :
      (id payment_id transaction_id : ℕ) (dto : RecordPaymentDto)
      → 1 ≤ dto.amount
      → count_by (λ p. p.id == payment_id) db.payments ≡ 0
      → count_by (λ t. t.id == transaction_id) db.transactions ≡ 0
      → IsBooked (state_of (record_payment now id payment_id transaction_id actor dto db))
  record_payment-IsBooked id payment_id transaction_id dto amount fresh new =
      record_payment-Keeps AreBooks db valid now id payment_id transaction_id actor dto
        (λ r account context found enough.
          let p = new_payment payment_id actor r account dto in
          record {
            receivables =
                pay-IsLedger id actor.organization_id db.receivables db.payments r valid.receivables
                  found payment_id actor account dto amount fresh enough;
            payables =
                other_payment-IsAccount payable_debts db.payables db.payments valid.payables p fresh
                  amount refl;
            single =
                All-append (λ x. is_double x ≡ false) db.payments (p ∷ []) valid.single (refl, tt);
            journal =
                post-IsJournal db.payments db.transactions db.statement_entries valid.journal p
                  (new_transaction transaction_id payment_id actor r account context dto) refl fresh
                  new;
          })

  pub reverse_payment-IsBooked :
      (id payment_id : ℕ) (reason : Text)
      → IsBooked (state_of (reverse_payment now id payment_id actor reason db))
  reverse_payment-IsBooked id payment_id reason =
      reverse_payment-Keeps AreBooks db valid now id payment_id actor reason
        (λ r p t found paid standing enough posted.
          let key = payment_key payment_id r.id actor.organization_id in
          let mark = reversed now actor reason in
          record {
            receivables =
                refund-IsLedger id actor.organization_id db.receivables db.payments r
                  valid.receivables found payment_id p now actor reason paid standing enough;
            payables =
                other_reversal-IsAccount payable_debts db.payables db.payments valid.payables key
                  mark p paid (λ x. refl) (λ x. refl) (λ x. refl)
                  (ground (
                    arith,
                    find_first_holds key db.payments p paid,
                    find_first-All (λ x. is_double x ≡ false) key db.payments p valid.single paid,
                  ))
                  standing refl;
            single =
                modify-All (λ x. is_double x ≡ false) (λ x. x.id == p.id) mark db.payments
                  (λ x h one. one) valid.single;
            journal =
                reverse-IsJournal db.payments db.transactions db.statement_entries valid.journal now
                  mark p t (λ x. refl) posted;
          })

  pub cancel-IsBooked : (id : ℕ) → IsBooked (state_of (cancel now id actor db))
  cancel-IsBooked id = cancel-Keeps AreBooks db valid now id actor (λ r found unpaid. record {
    receivables =
        withdraw-IsLedger id actor.organization_id db.receivables db.payments r valid.receivables
          found now unpaid;
    payables = valid.payables;
    single = valid.single;
    journal = valid.journal;
  })

  pub pay_payable-IsBooked :
      (id payment_id transaction_id : ℕ) (dto : RecordPaymentDto)
      → 1 ≤ dto.amount
      → count_by (λ p. p.id == payment_id) db.payments ≡ 0
      → count_by (λ t. t.id == transaction_id) db.transactions ≡ 0
      → IsBooked (state_of (pay_payable now id payment_id transaction_id actor dto db))
  pay_payable-IsBooked id payment_id transaction_id dto amount fresh new =
      pay_payable-Keeps AreBooks db valid now id payment_id transaction_id actor dto
        (λ r account found _ _ enough.
          let p = outgoing_payment payment_id actor r account dto in
          record {
            receivables =
                other_payment-IsAccount receivable_debts db.receivables db.payments
                  valid.receivables p fresh amount refl;
            payables =
                pay_out-IsPayables id actor.organization_id db.payables db.payments r valid.payables
                  found payment_id actor account dto amount fresh enough;
            single =
                All-append (λ x. is_double x ≡ false) db.payments (p ∷ []) valid.single (refl, tt);
            journal =
                post-IsJournal db.payments db.transactions db.statement_entries valid.journal p
                  (outgoing_transaction transaction_id payment_id actor r account dto) refl fresh
                  new;
          })

  pub reverse_payable_payment-IsBooked :
      (id payment_id : ℕ) (reason : Text)
      → IsBooked (state_of (reverse_payable_payment now id payment_id actor reason db))
  reverse_payable_payment-IsBooked id payment_id reason =
      reverse_payable_payment-Keeps AreBooks db valid now id payment_id actor reason
        (λ r p t found paid standing enough posted.
          let key = payable_payment_key payment_id r.id actor.organization_id in
          let mark = reversed now actor reason in
          record {
            receivables =
                other_reversal-IsAccount receivable_debts db.receivables db.payments
                  valid.receivables key mark p paid (λ x. refl) (λ x. refl) (λ x. refl)
                  (ground (
                    arith,
                    find_first_holds key db.payments p paid,
                    find_first-All (λ x. is_double x ≡ false) key db.payments p valid.single paid,
                  ))
                  standing refl;
            payables =
                take_back-IsPayables id actor.organization_id db.payables db.payments r
                  valid.payables found payment_id p now actor reason paid standing enough;
            single =
                modify-All (λ x. is_double x ≡ false) (λ x. x.id == p.id) mark db.payments
                  (λ x h one. one) valid.single;
            journal =
                reverse-IsJournal db.payments db.transactions db.statement_entries valid.journal now
                  mark p t (λ x. refl) posted;
          })
