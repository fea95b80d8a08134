-- ===== src/Receivables/Settlement.antt =====
-- The updates that payments, reversals and cancellations make to the receivables account.
use harpia_api.Prelude.{
  ℕ, ◌+◌, ◌-◌, ◌≤◌, ◌<◌, ◌≡◌, refl, false, not, some, List, [], ◌∷◌, ◌++◌, arith, ltb, ◌==◌,
  is_some, if◌then◌else◌, Bool-cases, inl, inr, Text,
}
use harpia_api.Table.{find_first, modify, count_by, find_first_holds, find_first-All}
use harpia_api.Store.{ReceivableStatus, ReceivableRow, PaymentRow, BankAccountRow, Actor}
use harpia_api.Receivables.Payments.{
  paid_status, RecordPaymentDto, receivable_key, payment_key, received, new_payment, refunded,
  reversed, withdrawn,
}
use harpia_api.Ledger.{HasStatus, IsSettled}
use harpia_api.Ledger.Updates.{restate-IsAccount, pay-IsAccount, refund-IsAccount}
use harpia_api.Receivables.Ledger.{debt_status, receivable_debts, IsLedger}

paid_status-HasStatus :
    (paid adjusted : ℕ)
    → 1 ≤ paid
    → paid ≤ adjusted
    → HasStatus (debt_status (paid_status paid adjusted)) paid adjusted
paid_status-HasStatus paid adjusted some_paid within = elim (Bool-cases (paid == adjusted)) [
  | inl e ↦ rw e (ground arith)
  | inr e ↦ rw e (some_paid, ground arith)
]

-- What is left after a refund.
refunded-HasStatus :
    (paid adjusted : ℕ)
    → paid < adjusted
    → HasStatus
        (debt_status (if paid == 0 then ReceivableStatus.pendente else ReceivableStatus.parcial))
        paid
        adjusted
refunded-HasStatus paid adjusted within = elim (Bool-cases (paid == 0)) [
  | inl e ↦ rw e (ground arith)
  | inr e ↦ rw e (ground arith, within)
]

module _ (id org : ℕ) (rs : List ReceivableRow) (ps : List PaymentRow) (r : ReceivableRow)
    (valid : IsLedger rs ps) (found : find_first (receivable_key id org) rs ≡ some r) where
  locked-IsSettled : IsSettled receivable_debts ps r
  locked-IsSettled =
      find_first-All (IsSettled receivable_debts ps) (receivable_key id org) rs r valid.settled
        found

  pub pay-IsLedger :
      (payment_id : ℕ) (actor : Actor) (account : BankAccountRow) (dto : RecordPaymentDto)
      → 1 ≤ dto.amount
      → count_by (λ p. p.id == payment_id) ps ≡ 0
      → ltb r.adjusted_amount (r.paid_amount + dto.amount) ≡ false
      → IsLedger
          (modify (λ x. x.id == r.id) (received r account dto) rs)
          (ps ++ new_payment payment_id actor r account dto ∷ [])
  pay-IsLedger payment_id actor account dto amount fresh enough =
      pay-IsAccount receivable_debts rs ps valid (new_payment payment_id actor r account dto) fresh
        amount (receivable_key id org) (received r account dto) r found (λ x. refl) refl refl refl
        (ground arith)
        (paid_status-HasStatus (r.paid_amount + dto.amount) r.adjusted_amount (ground arith)
          (ground arith))

  pub refund-IsLedger :
      (payment_id : ℕ) (p : PaymentRow) (now : ℕ) (actor : Actor) (reason : Text)
      → find_first (payment_key payment_id r.id org) ps ≡ some p
      → is_some p.reversed_at ≡ false
      → ltb r.paid_amount p.amount ≡ false
      → IsLedger
          (modify (λ x. x.id == r.id) (refunded r p) rs)
          (modify (λ x. x.id == p.id) (reversed now actor reason) ps)
  refund-IsLedger payment_id p now actor reason e still enough =
      refund-IsAccount receivable_debts rs ps valid (payment_key payment_id r.id org)
        (reversed now actor reason) p e (λ x. refl) (λ x. refl) (λ x. refl) (receivable_key id org)
        (refunded r p) r found (λ x. refl)
        (ground (arith, find_first_holds (payment_key payment_id r.id org) ps p e)) still refl
        (ground arith) (omega (arith, locked-IsSettled.within))
        (refunded-HasStatus (r.paid_amount - p.amount) r.adjusted_amount (
          ground (
            arith,
            locked-IsSettled.within,
            find_first-All (λ x. 1 ≤ x.amount) (payment_key payment_id r.id org) ps p valid.positive
                e,
          )))

  pub withdraw-IsLedger :
      (now : ℕ)
      → not (r.paid_amount == 0) ≡ false
      → IsLedger (modify (λ x. x.id == r.id) (withdrawn now) rs) ps
  withdraw-IsLedger now unpaid =
      restate-IsAccount receivable_debts (receivable_key id org) (withdrawn now) rs ps ps r valid
        found (λ x. refl) (λ k ne. refl) valid.payment_ids valid.positive
        (record {
          paid = locked-IsSettled.paid;
          within = locked-IsSettled.within;
          status = ground arith;
        })
