-- ===== src/UnitHolds/Sales/Updates.antt =====
-- `update` and `addCommission` of src/sales/sales.service.ts, the commercial invariant and the
-- receivables account.
use harpia_api.Prelude.{ℕ, ◌≡◌, refl, ◌==◌, ◌&&◌, List, [], ◌∷◌, arith}
use harpia_api.Table.{modify, count_by-modify_same}
use harpia_api.Store.{
  UnitRow, ReservationRow, ProposalRow, SaleRow, Database, Actor, state_of, is_current, Ensures,
  Ensures-bind, Ensures-then, Ensures-get, Ensures-found, Ensures-guard, Ensures-write,
  Ensures-pure, Ensures-transaction, Ensures-unique, Ensures-recorded_one, ReceivableRow,
  PaymentRow,
}
use harpia_api.Receivables.Ledger.{IsReconciled, IsLedger}
use harpia_api.Receivables.Generated.{IsKept}
use harpia_api.Sales.Shapes.{CreateSaleCommissionDto}
use harpia_api.Sales.Conversion.{lock_sale}
use harpia_api.Sales.Updates.{
  UpdateSaleDto, updated, with_commissions, update, add_to_sale, add_commission,
}
use harpia_api.UnitHolds.Accounts.{IsBalanced, IsConsistent}
use harpia_api.UnitHolds.Sales.Reading.{
  validate_commission_tenancy-Ensures, validate_commission_shape-Ensures, lock_sale-Ensures,
  both_kept,
}

-- A change of a sale that leaves its unit and status.
rewrite_sale :
    {us : List UnitRow} {rs : List ReservationRow} {ps : List ProposalRow} {ss : List SaleRow}
    (id : ℕ) (f : SaleRow → SaleRow)
    → ((s : SaleRow) → (f s).id ≡ s.id)
    → ((s : SaleRow) → (f s).unit_id ≡ s.unit_id)
    → ((s : SaleRow) → (f s).status ≡ s.status)
    → IsBalanced us rs ps ss
    → IsBalanced us rs ps (modify (λ s. s.id == id) f ss)
rewrite_sale {us} {rs} {ps} {ss} id f same_id same_unit same_status valid = record {
  unit_ids = valid.unit_ids;
  proposal_ids = valid.proposal_ids;
  sale_ids = λ k. omega (
    arith,
    valid.sale_ids k,
    count_by-modify_same (λ s. s.id == id) (λ s. s.id == k) f ss (λ s e. rw (same_id s) refl),
  );
  reserved = valid.reserved;
  sold = λ u. omega (
    arith,
    valid.sold u,
    count_by-modify_same (λ s. s.id == id) (λ s. s.unit_id == u && is_current s.status) f ss
        (λ s e. rw (same_unit s, same_status s) refl),
  );
}

module _ (A : List ReceivableRow → List PaymentRow → Type 0) where
  pub update-Keeps :
      (id : ℕ) (actor : Actor) (dto : UpdateSaleDto) (db : Database)
      → IsConsistent db
      → A db.receivables db.payments
      → IsConsistent (state_of (update id actor dto db))
        × A
            (state_of (update id actor dto db)).receivables
            (state_of (update id actor dto db)).payments
  unfolding update lock_sale
  update-Keeps id actor dto db valid account =
      both_kept (update id actor dto db) db valid account (λ start.
        Ensures-guard _ _ _ _
          (λ _.
            Ensures-then (λ _. IsKept IsBalanced A) _ _ _
              (Ensures-unique _ _ _ (
                Ensures-transaction _ _
                  (Ensures-found _ _ _ _
                    (λ sale _. Ensures-get _ _ _ (
                      Ensures-guard _ _ _ _
                        (λ _. Ensures-write _ _ _ (
                          Ensures-recorded_one _ _ (record {
                            others =
                                rewrite_sale id (updated dto) (λ s. refl) (λ s. refl) (λ s. refl)
                                  valid;
                            account = account;
                          })))
                        tt))
                    tt)
                  start))
              (λ _ d h. lock_sale-Ensures _ id actor.organization_id d h))
          start)

  add_to_sale-Ensures :
      (id commission_id : ℕ) (actor : Actor) (dto : CreateSaleCommissionDto) (db : Database)
      → IsKept IsBalanced A db
      → Ensures
          (λ _. IsKept IsBalanced A)
          (λ _. Unit {0})
          (add_to_sale id commission_id actor dto db)
  unfolding add_to_sale lock_sale
  add_to_sale-Ensures id commission_id actor dto db h =
      Ensures-found _ _ _ _
        (λ sale _.
          Ensures-guard _ _ _ _
            (λ _.
              Ensures-bind (λ _. IsKept IsBalanced A) _ _ _
                (validate_commission_tenancy-Ensures _ commission_id actor.organization_id
                  (dto ∷ []) db h)
                (λ cs d k. Ensures-write _ _ _ (
                  Ensures-recorded_one _ _ (record {
                    others =
                        rewrite_sale id (with_commissions cs) (λ s. refl) (λ s. refl) (λ s. refl)
                          k.others;
                    account = k.account;
                  }))))
            tt)
        tt

  pub add_commission-Keeps :
      (id commission_id : ℕ) (actor : Actor) (dto : CreateSaleCommissionDto) (db : Database)
      → IsConsistent db
      → A db.receivables db.payments
      → IsConsistent (state_of (add_commission id commission_id actor dto db))
        × A
            (state_of (add_commission id commission_id actor dto db)).receivables
            (state_of (add_commission id commission_id actor dto db)).payments
  unfolding add_commission lock_sale
  add_commission-Keeps id commission_id actor dto db valid account =
      both_kept (add_commission id commission_id actor dto db) db valid account (λ start.
        Ensures-then (λ _. IsKept IsBalanced A) _ _ _
          (validate_commission_shape-Ensures (IsKept IsBalanced A) _ (dto ∷ []) db start start)
          (λ _ d h.
            Ensures-then (λ _. IsKept IsBalanced A) _ _ _
              (Ensures-transaction _ _ (add_to_sale-Ensures id commission_id actor dto d h) h)
              (λ _ d' h'. Ensures-found _ _ _ _ (λ sale _. Ensures-pure _ _ h') h')))

-- Whatever becomes of a request to change the number, the date or the notes of a sale, the tables
-- stay balanced and the receivables agree with their payments.
pub update-IsReconciled :
    (id : ℕ) (actor : Actor) (dto : UpdateSaleDto) (db : Database)
    → IsConsistent db
    → IsReconciled db
    → IsConsistent (state_of (update id actor dto db))
      × IsReconciled (state_of (update id actor dto db))
update-IsReconciled id actor dto db valid account =
    update-Keeps IsLedger id actor dto db valid account

-- Whatever becomes of a request to add a commission to a sale, the tables stay balanced and the
-- receivables agree with their payments.
pub add_commission-IsReconciled :
    (id commission_id : ℕ) (actor : Actor) (dto : CreateSaleCommissionDto) (db : Database)
    → IsConsistent db
    → IsReconciled db
    → IsConsistent (state_of (add_commission id commission_id actor dto db))
      × IsReconciled (state_of (add_commission id commission_id actor dto db))
add_commission-IsReconciled id commission_id actor dto db valid account =
    add_commission-Keeps IsLedger id commission_id actor dto db valid account
