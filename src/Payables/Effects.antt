-- ===== src/Payables/Effects.antt =====
-- The effect of `recordPayment` of src/finance/payables.service.ts on the source of the payable.

use harpia_api.Prelude.{ℕ, ◌+◌, ◌≤◌, ◌≡◌, refl, false, ◌&&◌, none, some, arith, ◌==◌}
use harpia_api.Table.{find_first, modify, find_first-modify}
use harpia_api.Store.{
  PayableStatus, BankAccountRow, PayableRow, Database, Actor, is_payable_pago, Ensures, Ensures-get,
  Ensures-write, Ensures-then, Ensures-pure, Ensures-recorded_many, Ensures-pass, Ensures-present,
  Ensures-commit, Succeeds, Succeeds-Ensures, or_raise, pure,
}
use harpia_api.Receivables.Payments.{RecordPaymentDto, require_bank_account}
use harpia_api.Payables.Changes.{payable_key, lock_payable, is_payable_cancelado}
use harpia_api.Payables.Payments.{sync_source, paid_payable, payable_status, pay_out, pay_payable}
use harpia_api.Payables.Sources.{
  returns_after, sales_after, HasReturn, HasCommission, sync_source-succeeds, IsReturnPaid,
  IsCommissionPaid, returned-IsReturnPaid, commissioned-IsCommissionPaid,
}

-- What the writes leave.
abbrev IsWritten :
    ℕ → Actor → RecordPaymentDto → PayableRow → BankAccountRow → Database → Database → Type 0
IsWritten id actor dto r account db d =
    (find_first (payable_key id actor.organization_id) d.payables
      ≡ some (paid_payable r account dto r))
    × (d.returns
        ≡ returns_after r.investor_return_id PayableStatus.pago dto.paid_at r.original_amount
            db.returns)
    × (d.sales ≡ sales_after r.sale_commission_id PayableStatus.pago db.sales)

-- The payable `x` is `r` paid off, and so is what it comes from.
pub record IsPaidOff (id : ℕ) (actor : Actor) (dto : RecordPaymentDto) (r x : PayableRow)
    (d : Database) : Type 0 where
  pub stored : find_first (payable_key id actor.organization_id) d.payables ≡ some x
  pub status : x.status ≡ PayableStatus.pago
  pub paid : (x.original_amount ≡ r.original_amount) × (x.paid_amount ≡ r.original_amount)
  pub paid_at : x.paid_at ≡ some dto.paid_at
  pub returned : IsReturnPaid r.investor_return_id dto.paid_at r.original_amount d.returns
  pub commissioned : IsCommissionPaid r.sale_commission_id d.sales

-- The constraints of the tables allow payments above 0 and no paid payable with a time of
-- cancellation: `positive` and `alive`.
module _ (id payment_id transaction_id : ℕ) (actor : Actor) (dto : RecordPaymentDto) (db : Database)
    (r : PayableRow) (account : BankAccountRow)
    (found : find_first (payable_key id actor.organization_id) db.payables ≡ some r)
    (going : is_payable_cancelado r.status ≡ false) (owing : is_payable_pago r.status ≡ false)
    (positive : 1 ≤ dto.amount) (alive : r.cancelled_at ≡ none)
    (rest : r.paid_amount + dto.amount ≡ r.original_amount)
    (banked : find_first
        (λ a. a.id == dto.bank_account_id && a.organization_id == actor.organization_id)
        db.bank_accounts
      ≡ some account)
    (returned : HasReturn r.investor_return_id db.returns)
    (commissioned : HasCommission r.sale_commission_id db.sales) where
  updated :
      find_first
        (payable_key id actor.organization_id)
        (modify (λ x. x.id == r.id) (paid_payable r account dto) db.payables)
      ≡ some (paid_payable r account dto r)
  updated = ground (
    arith,
    find_first-modify (payable_key id actor.organization_id) (λ x. x.id == r.id)
        (paid_payable r account dto) db.payables r (λ x. refl) found,
  )

  paid_off : payable_status (r.paid_amount + dto.amount) r.original_amount ≡ PayableStatus.pago
  paid_off = ground arith

  pay_out-succeeds :
      Ensures
        (λ _ d. IsWritten id actor dto r account db d)
        (λ _. ⊥)
        (pay_out id payment_id transaction_id actor dto db)
  unfolding pay_out lock_payable require_bank_account sync_source
  pay_out-succeeds = Ensures-present _ _ _ _ r found (
      Ensures-pass _ _ _ _ going (
        Ensures-pass _ _ _ _ owing (
          Ensures-pass _ _ _ _ (ground arith) (
            Ensures-present _ _ _ _ account banked (
              Ensures-write _ _ _ (
                Ensures-write _ _ _ (
                  Ensures-write _ _ _ (
                    Ensures-then _ _ _ _ (sync_source-succeeds r _ _ _ _ returned commissioned)
                      (λ _ d same. rw same (
                        Ensures-recorded_many _ _
                          (updated, rw (paid_off, rest) refl, rw paid_off refl)))))))))))

  IsWritten-IsPaidOff :
      (d : Database)
      → IsWritten id actor dto r account db d
      → IsPaidOff id actor dto r (paid_payable r account dto r) d
  IsWritten-IsPaidOff d (stored, returns, sales) = record {
    stored = stored;
    status = paid_off;
    paid = (refl, rest);
    paid_at = ground arith;
    returned = rw returns (
        returned-IsReturnPaid r.investor_return_id dto.paid_at r.original_amount db.returns
          returned);
    commissioned =
        rw sales (commissioned-IsCommissionPaid r.sale_commission_id db.sales commissioned);
  }

  -- An open payable can be paid off: a payment of at least one cent and of exactly what is still owed,
  -- not in the future and from an account of the tenant, succeeds where the rows that the payable comes
  -- from are there, and the payable that is returned and stored is paid with the date of the payment, as
  -- are the commission, with the status PAGA, or the return of an investor that it comes from, with the
  -- date of the payment and the whole amount.
  pub pay_payable_off :
      (now : ℕ)
      → dto.paid_at ≤ now
      → Succeeds
          (λ x d. IsPaidOff id actor dto r x d)
          (pay_payable now id payment_id transaction_id actor dto db)
  unfolding pay_payable lock_payable or_raise pure
  pay_payable_off now past = Succeeds-Ensures _ (
      Ensures-pass _ _ _ _ (ground arith) (
        Ensures-then _ _ _ _ (Ensures-commit _ _ pay_out-succeeds)
          (λ _ d is. Ensures-get _ _ _ (rw (is.0) (Ensures-pure _ _ (IsWritten-IsPaidOff d is))))))
