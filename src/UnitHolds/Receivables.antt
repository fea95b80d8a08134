-- ===== src/UnitHolds/Receivables.antt =====
-- `recordPayment`, `reversePayment` and `cancel` of src/receivables/receivables.service.ts and the
-- commercial invariant: they write the status of the sale.
use harpia_api.Prelude.{
  ℕ, ◌≤◌, ◌≡◌, refl, Bool, true, false, ◌||◌, ◌&&◌, not, Option, none, some, List, arith, ◌==◌,
  Bool-cases, inl, inr, Text,
}
use harpia_api.Table.{
  find_first, modify, count_by, count_by-modify, count_by-modify_same, count_by-find_first,
  count_by_mono, count_by_split,
}
use harpia_api.Store.{
  SaleStatus, UnitRow, ReservationRow, ProposalRow, SaleRow, Database, Actor, state_of,
  is_cancelado, is_current, Ensures, state_of-Ensures, Ensures-pure, Ensures-get, Ensures-row,
  Ensures-guard, Ensures-write, Ensures-then, Ensures-found, Ensures-or_raise, Ensures-transaction,
  Ensures-record_one, Ensures-recorded_one,
}
use harpia_api.Receivables.Payments.{
  lock_payment, require_bank_account, RecordPaymentDto, lock_receivable, sync_sale_status,
  sync_locked_sale, same_sale_status, next_sale_status, owed_for, audit_unmatched, pay,
  record_payment, refund, reverse_payment, withdraw, cancel,
}
use harpia_api.Sales.Conversion.{sale_key}
use harpia_api.UnitHolds.Accounts.{IsBalanced, IsConsistent, sales_on}

module _ (id org : ℕ) (sale : SaleRow) (status : SaleStatus) (ss : List SaleRow)
    (one : count_by (λ s. s.id == sale.id) ss ≤ 1)
    (found : find_first (sale_key id org) ss ≡ some sale) where
  abbrev restated : List SaleRow
  restated = modify (λ s. s.id == sale.id) (λ s. record s { status = status }) ss

  -- The status of a current sale changes on its one row.
  sales_on-restated : is_current sale.status ≡ true → (u : ℕ) → sales_on u restated ≤ sales_on u ss
  sales_on-restated current u =
      let is = λ (s : SaleRow). s.id == sale.id in
      let on = λ (s : SaleRow). s.unit_id == u && is_current s.status in
      elim (Bool-cases (sale.unit_id == u)) [
        | inl e ↦ omega (
          arith,
          one,
          count_by-modify is on (λ s. record s { status = status }) ss,
          count_by-find_first (sale_key id org) (λ s. is s && on s) ss sale found (ground arith),
          count_by_mono (λ s. is s && (s.unit_id == u && is_current status)) is ss
              (λ s h. ground arith),
        )
        | inr e ↦ omega (
          arith,
          one,
          count_by-modify is on (λ s. record s { status = status }) ss,
          count_by_split is (λ s. s.unit_id == u) ss,
          count_by-find_first (sale_key id org) (λ s. is s && not (s.unit_id == u)) ss sale found
              (ground arith),
          count_by_mono (λ s. is s && (s.unit_id == u && is_current status))
              (λ s. is s && s.unit_id == u) ss (λ s h. ground arith),
        )
      ]

  restate-IsBalanced :
      {us : List UnitRow} {rs : List ReservationRow} {ps : List ProposalRow}
      → is_current sale.status ≡ true
      → IsBalanced us rs ps ss
      → IsBalanced us rs ps restated
  restate-IsBalanced {us} {rs} {ps} current valid = record {
    unit_ids = valid.unit_ids;
    proposal_ids = valid.proposal_ids;
    sale_ids = λ k. omega (
      arith,
      valid.sale_ids k,
      count_by-modify_same (λ s. s.id == sale.id) (λ s. s.id == k)
          (λ s. record s { status = status }) ss (λ s e. refl),
    );
    reserved = valid.reserved;
    sold = λ u. omega (arith, valid.sold u, sales_on-restated current u);
  }

module _ {E : Database → Type 0} where
  sync_locked-Ensures :
      (id : ℕ) (sale : Option SaleRow) (actor : Actor) (db : Database)
      → find_first (sale_key id actor.organization_id) db.sales ≡ sale
      → IsConsistent db
      → Ensures (λ _. IsConsistent) E (sync_locked_sale sale actor db)
  unfolding sync_locked_sale
  sync_locked-Ensures id none actor db found valid = Ensures-pure tt db valid
  sync_locked-Ensures id (some sale) actor db found valid =
      Ensures-get _ _ _
        (elim (Bool-cases (
          not (is_current sale.status)
          || same_sale_status sale.status
              (next_sale_status (owed_for sale.id actor.organization_id db)))) [
                | inl e ↦ rw e (Ensures-pure tt db valid)
                | inr e ↦ rw e (
                    Ensures-write _ _ _ (
                      Ensures-recorded_one _ _ (
                        restate-IsBalanced id actor.organization_id sale
                          (next_sale_status (owed_for sale.id actor.organization_id db)) db.sales
                          (valid.sale_ids sale.id) found (ground arith) valid)))
              ])

  sync-Ensures :
      (sale_id : Option ℕ) (actor : Actor) (db : Database)
      → IsConsistent db
      → Ensures (λ _. IsConsistent) E (sync_sale_status sale_id actor db)
  unfolding sync_sale_status
  sync-Ensures none actor db valid = Ensures-pure tt db valid
  sync-Ensures (some id) actor db valid = Ensures-get _ _ _ (
      sync_locked-Ensures id (find_first (sale_key id actor.organization_id) db.sales) actor db refl
        valid)

find_one-Ensures :
    (id org : ℕ) (db : Database)
    → IsConsistent db
    → Ensures (λ _. IsConsistent) IsConsistent (lock_receivable id org db)
unfolding lock_receivable
find_one-Ensures id org db valid = Ensures-get _ _ _ (Ensures-or_raise _ _ _ (λ a e. valid) valid)

pay-Ensures :
    (id payment_id transaction_id : ℕ) (actor : Actor) (dto : RecordPaymentDto) (db : Database)
    → IsConsistent db
    → Ensures (λ _. IsConsistent) (λ _. Unit {0}) (pay id payment_id transaction_id actor dto db)
unfolding pay lock_receivable require_bank_account
pay-Ensures id payment_id transaction_id actor dto db valid =
    Ensures-found _ _ _ _
      (λ r _.
        Ensures-guard _ _ _ _
          (λ _.
            Ensures-guard _ _ _ _
              (λ _.
                Ensures-guard _ _ _ _
                  (λ _.
                    Ensures-found _ _ _ _
                      (λ account _. Ensures-get _ _ _ (
                        Ensures-write _ _ _ (
                          Ensures-write _ _ _ (
                            Ensures-write _ _ _ (
                              Ensures-record_one _ _ _ (
                                Ensures-record_one _ _ _
                                  (sync-Ensures r.sale_id actor _ valid)))))))
                      tt)
                  tt)
              tt)
          tt)
      tt

-- Whatever becomes of a request to record a payment, the tables stay balanced: of the sale only the
-- status changes, and a sale that is not current keeps it.
pub record_payment-IsConsistent :
    (now id payment_id transaction_id : ℕ) (actor : Actor) (dto : RecordPaymentDto) (db : Database)
    → IsConsistent db
    → IsConsistent (state_of (record_payment now id payment_id transaction_id actor dto db))
unfolding record_payment
record_payment-IsConsistent now id payment_id transaction_id actor dto db valid =
    state_of-Ensures IsConsistent _ (
      Ensures-guard _ _ _ _
        (λ _.
          Ensures-then (λ _. IsConsistent) _ _ _
            (Ensures-transaction _ _ (pay-Ensures id payment_id transaction_id actor dto db valid)
              valid)
            (λ _ d. find_one-Ensures id actor.organization_id d))
        valid)

audit_unmatched-Ensures :
    (b : Bool) (actor : Actor) (id : ℕ) (db : Database)
    → IsConsistent db
    → Ensures (λ _. IsConsistent) (λ _. Unit {0}) (audit_unmatched b actor id db)
unfolding audit_unmatched
audit_unmatched-Ensures false actor id db h = Ensures-pure _ _ h
audit_unmatched-Ensures true actor id db h = Ensures-recorded_one _ _ h

refund-Ensures :
    (now id payment_id : ℕ) (actor : Actor) (reason : Text) (db : Database)
    → IsConsistent db
    → Ensures (λ _. IsConsistent) (λ _. Unit {0}) (refund now id payment_id actor reason db)
unfolding refund lock_receivable lock_payment
refund-Ensures now id payment_id actor reason db valid =
    Ensures-found _ _ _ _
      (λ r _.
        Ensures-found _ _ _ _
          (λ p _.
            Ensures-guard _ _ _ _
              (λ _.
                Ensures-guard _ _ _ _
                  (λ _. Ensures-write _ _ _ (
                    Ensures-get _ _ _ (
                      Ensures-row _ _ _ _
                        (λ t _. Ensures-write _ _ _ (
                          Ensures-get _ _ _ (
                            Ensures-write _ _ _ (
                              Ensures-write _ _ _ (
                                Ensures-record_one _ _ _ (
                                  Ensures-then (λ _. IsConsistent) _ _ _
                                    (audit_unmatched-Ensures _ actor _ _ valid)
                                    (λ _ d. sync-Ensures r.sale_id actor d)))))))
                        tt)))
                  tt)
              tt)
          tt)
      tt

-- Whatever becomes of a request to reverse a payment, the tables stay balanced.
pub reverse_payment-IsConsistent :
    (now id payment_id : ℕ) (actor : Actor) (reason : Text) (db : Database)
    → IsConsistent db
    → IsConsistent (state_of (reverse_payment now id payment_id actor reason db))
unfolding reverse_payment
reverse_payment-IsConsistent now id payment_id actor reason db valid =
    state_of-Ensures IsConsistent _ (
      Ensures-then (λ _. IsConsistent) _ _ _
        (Ensures-transaction _ _ (refund-Ensures now id payment_id actor reason db valid) valid)
        (λ _ d. find_one-Ensures id actor.organization_id d))

-- Whatever becomes of a request to cancel a receivable, the tables stay balanced.
pub withdraw-IsConsistent :
    (now id : ℕ) (actor : Actor) (db : Database)
    → IsConsistent db
    → IsConsistent (state_of (cancel now id actor db))
unfolding cancel withdraw lock_receivable
withdraw-IsConsistent now id actor db valid = state_of-Ensures IsConsistent _ (
    Ensures-then (λ _. IsConsistent) _ _ _
      (Ensures-transaction _ _
        (Ensures-found _ _ _ _
          (λ r _. elim (Bool-cases (is_cancelado r.status)) [
            | inl e ↦ rw e (Ensures-pure tt db valid)
            | inr e ↦ rw e (
                Ensures-guard _ _ _ _
                  (λ _.
                    Ensures-write _ _ _
                      (Ensures-record_one _ _ _ (sync-Ensures r.sale_id actor _ valid)))
                  tt)
          ])
          tt)
        valid)
      (λ _ d. find_one-Ensures id actor.organization_id d))
