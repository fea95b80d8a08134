-- ===== src/Receivables/Effects.antt =====
-- The effect of `recordPayment` of src/receivables/receivables.service.ts.
use harpia_api.Prelude.{ℕ, ◌+◌, ◌≡◌, some, List, [], ◌∷◌, ◌++◌, ◌<◌, none}
use harpia_api.Table.{find_first}
use harpia_api.Store.{BankAccountRow, ReceivableRow, PaymentRow, Actor, ReceivableStatus}
use harpia_api.Receivables.Payments.{receivable_key, RecordPaymentDto, received, new_payment}

-- The receivable with the payment added, and the payment at the end of the payments.
abbrev pub IsPaid :
    ℕ
    → ℕ
    → Actor
    → RecordPaymentDto
    → ReceivableRow
    → BankAccountRow
    → List PaymentRow
    → List ReceivableRow
    → List PaymentRow
    → Type 0
IsPaid id payment_id actor dto r account before rs ps =
    (find_first (receivable_key id actor.organization_id) rs ≡ some (received r account dto r))
    × (ps ≡ before ++ new_payment payment_id actor r account dto ∷ [])

-- What a payment makes of the receivable `r`, and of the payments.
pub record IsReceived (payment_id : ℕ) (dto : RecordPaymentDto) (r : ReceivableRow)
    (before ps : List PaymentRow) (x : ReceivableRow) : Type 0 where
  pub same : (x.id ≡ r.id) × (x.adjusted_amount ≡ r.adjusted_amount)
  pub paid : x.paid_amount ≡ r.paid_amount + dto.amount
  pub account : x.bank_account_id ≡ some dto.bank_account_id
  pub off :
      r.paid_amount + dto.amount ≡ r.adjusted_amount
      → (x.status ≡ ReceivableStatus.pago) × (x.paid_at ≡ some dto.paid_at)
  pub partly :
      r.paid_amount + dto.amount < r.adjusted_amount
      → (x.status ≡ ReceivableStatus.parcial) × (x.paid_at ≡ none)
  pub payment :
      (p : PaymentRow) × (ps ≡ before ++ p ∷ [])
      × (p.id ≡ payment_id)
      × (p.receivable_id ≡ some r.id)
      × (p.amount ≡ dto.amount)
      × (p.bank_account_id ≡ dto.bank_account_id)
      × (p.reversed_at ≡ none)
