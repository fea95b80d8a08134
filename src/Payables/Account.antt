-- ===== src/Payables/Account.antt =====
-- The payables account of src/finance/payables.service.ts: payables as debts, and the updates of the
-- service on them.
use harpia_api.Prelude.{
  ℕ, ◌+◌, ◌-◌, ◌≤◌, ◌<◌, ◌≡◌, refl, false, not, some, List, [], ◌∷◌, ◌++◌, arith, ltb, ◌==◌,
  is_some, or_else, Bool-cases, inl, inr, Text,
}
use harpia_api.Table.{find_first, modify, count_by, find_first_holds, find_first-All}
use harpia_api.Store.{PayableStatus, PayableRow, PaymentRow, BankAccountRow, Actor}
use harpia_api.Ledger.{DebtStatus, Debts, HasStatus, IsSettled, IsAccount}
use harpia_api.Ledger.Updates.{restate-IsAccount, pay-IsAccount, refund-IsAccount}
use harpia_api.Receivables.Payments.{RecordPaymentDto, reversed}
use harpia_api.Payables.Changes.{
  payable_key, UpdatePayableDto, updated_payable, updated_status, cancelled_payable,
}
use harpia_api.Payables.Payments.{
  payable_payment_key, outgoing_payment, paid_payable, payable_status, restored_payable,
  restored_status,
}

abbrev pub payable_debt_status : PayableStatus → DebtStatus
payable_debt_status PayableStatus.pendente = DebtStatus.pending
payable_debt_status PayableStatus.parcial = DebtStatus.partly_paid
payable_debt_status PayableStatus.pago = DebtStatus.paid_off
payable_debt_status PayableStatus.cancelado = DebtStatus.cancelled

abbrev pub payable_debts : Debts PayableRow
payable_debts = record {
  id_of = λ p. p.id;
  owed = λ p. p.original_amount;
  paid = λ p. p.paid_amount;
  state = λ p. payable_debt_status p.status;
  debt_of = λ p. p.payable_id;
}

abbrev pub IsPayables : List PayableRow → List PaymentRow → Type 0
IsPayables = IsAccount payable_debts

payable_status-HasStatus :
    (paid original : ℕ)
    → 1 ≤ paid
    → paid ≤ original
    → HasStatus (payable_debt_status (payable_status paid original)) paid original
payable_status-HasStatus paid original some_paid within = elim (Bool-cases (paid == original)) [
  | inl e ↦ rw e (ground arith)
  | inr e ↦ rw e (some_paid, ground arith)
]

restored_status-HasStatus :
    (paid original : ℕ)
    → paid < original
    → HasStatus (payable_debt_status (restored_status paid)) paid original
restored_status-HasStatus paid original within = elim (Bool-cases (paid == 0)) [
  | inl e ↦ rw e (ground arith)
  | inr e ↦ rw e (ground arith, within)
]

updated_status-HasStatus :
    (amount paid : ℕ)
    → paid ≤ amount
    → HasStatus (payable_debt_status (updated_status amount paid)) paid amount
updated_status-HasStatus amount paid within = elim (Bool-cases (amount == paid)) [
  | inl e ↦ rw e (ground arith)
  | inr e ↦ rw e (elim (Bool-cases (ltb 0 paid)) [
    | inl s ↦ rw s (ground arith, ground arith)
    | inr s ↦ rw s (ground arith)
  ])
]

module _ (id org : ℕ) (rs : List PayableRow) (ps : List PaymentRow) (r : PayableRow)
    (valid : IsPayables rs ps) (found : find_first (payable_key id org) rs ≡ some r) where
  pub payable-IsSettled : IsSettled payable_debts ps r
  payable-IsSettled =
      find_first-All (IsSettled payable_debts ps) (payable_key id org) rs r valid.settled found

  pub pay_out-IsPayables :
      (payment_id : ℕ) (actor : Actor) (account : BankAccountRow) (dto : RecordPaymentDto)
      → 1 ≤ dto.amount
      → count_by (λ p. p.id == payment_id) ps ≡ 0
      → ltb r.original_amount (r.paid_amount + dto.amount) ≡ false
      → IsPayables
          (modify (λ x. x.id == r.id) (paid_payable r account dto) rs)
          (ps ++ outgoing_payment payment_id actor r account dto ∷ [])
  pay_out-IsPayables payment_id actor account dto amount fresh enough =
      pay-IsAccount payable_debts rs ps valid (outgoing_payment payment_id actor r account dto)
        fresh amount (payable_key id org) (paid_payable r account dto) r found (λ x. refl) refl refl
        refl (ground arith)
        (payable_status-HasStatus (r.paid_amount + dto.amount) r.original_amount (ground arith)
          (ground arith))

  pub take_back-IsPayables :
      (payment_id : ℕ) (p : PaymentRow) (now : ℕ) (actor : Actor) (reason : Text)
      → find_first (payable_payment_key payment_id r.id org) ps ≡ some p
      → is_some p.reversed_at ≡ false
      → ltb r.paid_amount p.amount ≡ false
      → IsPayables
          (modify (λ x. x.id == r.id) (restored_payable r p) rs)
          (modify (λ x. x.id == p.id) (reversed now actor reason) ps)
  take_back-IsPayables payment_id p now actor reason e still enough =
      refund-IsAccount payable_debts rs ps valid (payable_payment_key payment_id r.id org)
        (reversed now actor reason) p e (λ x. refl) (λ x. refl) (λ x. refl) (payable_key id org)
        (restored_payable r p) r found (λ x. refl)
        (ground (arith, find_first_holds (payable_payment_key payment_id r.id org) ps p e)) still
        refl (ground arith) (omega (arith, payable-IsSettled.within))
        (restored_status-HasStatus (r.paid_amount - p.amount) r.original_amount (
          ground (
            arith,
            payable-IsSettled.within,
            find_first-All (λ x. 1 ≤ x.amount) (payable_payment_key payment_id r.id org) ps p
                valid.positive e,
          )))

  pub close-IsPayables :
      (now : ℕ)
      → not (r.paid_amount == 0) ≡ false
      → IsPayables (modify (λ x. x.id == r.id) (cancelled_payable now) rs) ps
  close-IsPayables now unpaid =
      restate-IsAccount payable_debts (payable_key id org) (cancelled_payable now) rs ps ps r valid
        found (λ x. refl) (λ k ne. refl) valid.payment_ids valid.positive
        (record {
          paid = payable-IsSettled.paid;
          within = payable-IsSettled.within;
          status = ground arith;
        })

  pub update-IsPayables :
      (dto : UpdatePayableDto)
      → ltb (or_else dto.original_amount r.original_amount) r.paid_amount ≡ false
      → IsPayables (modify (λ x. x.id == r.id) (updated_payable r dto) rs) ps
  update-IsPayables dto enough =
      restate-IsAccount payable_debts (payable_key id org) (updated_payable r dto) rs ps ps r valid
        found (λ x. refl) (λ k ne. refl) valid.payment_ids valid.positive
        (record {
          paid = payable-IsSettled.paid;
          within = ground arith;
          status =
              updated_status-HasStatus (or_else dto.original_amount r.original_amount) r.paid_amount
                (ground arith);
        })
