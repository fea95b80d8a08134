-- ===== src/Receivables/Requests.antt =====
-- `recordPayment`, `reversePayment` and `cancel` of src/receivables/receivables.service.ts and the
-- receivables account.
use harpia_api.Prelude.{ℕ, ◌≤◌, ◌≡◌, ◌==◌, Text}
use harpia_api.Table.{count_by}
use harpia_api.Store.{Database, Actor, state_of}
use harpia_api.Receivables.Payments.{RecordPaymentDto, record_payment, reverse_payment, cancel}
use harpia_api.Receivables.Ledger.{IsReconciled, IsLedger}
use harpia_api.Receivables.Settlement.{pay-IsLedger, refund-IsLedger, withdraw-IsLedger}
use harpia_api.Receivables.Keeps.{record_payment-Keeps, reverse_payment-Keeps, cancel-Keeps}

-- Whatever a request to record a payment of at least one cent does, each receivable's paid amount is
-- still the sum of its unreversed payments, at most the amount owed, and as its status says; the
-- identifier of the new payment is new.
pub record_payment-IsReconciled :
    (now id payment_id transaction_id : ℕ) (actor : Actor) (dto : RecordPaymentDto) (db : Database)
    → 1 ≤ dto.amount
    → count_by (λ p. p.id == payment_id) db.payments ≡ 0
    → IsReconciled db
    → IsReconciled (state_of (record_payment now id payment_id transaction_id actor dto db))
record_payment-IsReconciled now id payment_id transaction_id actor dto db amount fresh valid =
    record_payment-Keeps (λ c. IsLedger c.receivables c.payments) db valid now id payment_id
      transaction_id actor dto
      (λ r account context found enough.
        pay-IsLedger id actor.organization_id db.receivables db.payments r valid found payment_id
          actor account dto amount fresh enough)

-- Whatever a request to reverse a payment does, each receivable's paid amount is still the sum of
-- its unreversed payments, at most the amount owed, and as its status says.
pub reverse_payment-IsReconciled :
    (now id payment_id : ℕ) (actor : Actor) (reason : Text) (db : Database)
    → IsReconciled db
    → IsReconciled (state_of (reverse_payment now id payment_id actor reason db))
reverse_payment-IsReconciled now id payment_id actor reason db valid =
    reverse_payment-Keeps (λ c. IsLedger c.receivables c.payments) db valid now id payment_id actor
      reason
      (λ r p t found paid fresh enough posted.
        refund-IsLedger id actor.organization_id db.receivables db.payments r valid found payment_id
          p now actor reason paid fresh enough)

-- Whatever a request to cancel a receivable does, the receivables account stays reconciled: a
-- cancelled receivable has no unreversed payment.
pub cancel-IsReconciled :
    (now id : ℕ) (actor : Actor) (db : Database)
    → IsReconciled db
    → IsReconciled (state_of (cancel now id actor db))
cancel-IsReconciled now id actor db valid =
    cancel-Keeps (λ c. IsLedger c.receivables c.payments) db valid now id actor
      (λ r found unpaid.
        withdraw-IsLedger id actor.organization_id db.receivables db.payments r valid found now
          unpaid)
