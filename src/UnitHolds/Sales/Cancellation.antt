-- ===== src/UnitHolds/Sales/Cancellation.antt =====
-- `cancel` of src/sales/sale-cancellations.service.ts, the commercial invariant and the receivables
-- account.
use harpia_api.UnitHolds.Status.{status_on-rows_of}
use harpia_api.Prelude.{
  ℕ, ◌+◌, ◌≤◌, ◌≡◌, refl, sym, ◌∙◌, Bool, true, false, ◌&&◌, none, some, List, [], ◌∷◌, arith, ◌==◌,
  Text, All, Bool-cases, inl, inr, is_some, Option, ==_iff,
}
use harpia_api.Table.{
  find_first, find_first-none, modify, count_by, count_by-find_first, count_by-modify,
  count_by-modify_same, count_by_none,
}
use harpia_api.Store.{
  UnitStatus, UnitRow, ReservationRow, ProposalRow, SaleRow, ReceivableRow, PaymentRow, Database,
  Actor, state_of, is_current, is_reservada, Ensures, Ensures-then, Ensures-get, Ensures-found,
  Ensures-guard, Ensures-write, Ensures-transaction, Ensures-recorded_one,
}
use harpia_api.Ledger.{IsSettled}
use harpia_api.Receivables.Ledger.{receivable_debts, IsLedger, IsReconciled}
use harpia_api.Receivables.Generated.{IsKept}
use harpia_api.Sales.Conversion.{lock_sale, sale_key}
use harpia_api.Sales.Cancellation.{
  is_received, is_receivable_of, closed, drop_commissions, undone, is_sold_unit, undo, cancel_sale,
}
use harpia_api.UnitHolds.Accounts.{IsBalanced, IsConsistent, sales_on, is_sold}
use harpia_api.UnitHolds.Sales.Reading.{lock_sale-Ensures, both_kept}

module _ (now org sale_id : ℕ) (ps : List PaymentRow) where
  close-All :
      (rs : List ReceivableRow)
      → count_by (is_received sale_id) rs ≡ 0
      → All (IsSettled receivable_debts ps) rs
      → All (IsSettled receivable_debts ps) (modify (is_receivable_of org sale_id) (closed now) rs)
  close-All [] unpaid a = tt
  close-All (r ∷ rs) unpaid (ok, a) = elim (Bool-cases (is_receivable_of org sale_id r)) [
    | inl e ↦ (
      rw e (record { paid = ok.paid; within = ok.within; status = ground arith }),
      close-All rs (omega (arith, unpaid)) a,
    )
    | inr e ↦ (rw e ok, close-All rs (omega (arith, unpaid)) a)
  ]

  -- Receivables with nothing paid are closed.
  close-IsLedger :
      (rs : List ReceivableRow)
      → count_by (is_received sale_id) rs ≡ 0
      → IsLedger rs ps
      → IsLedger (modify (is_receivable_of org sale_id) (closed now) rs) ps
  close-IsLedger rs unpaid valid = record {
    ids = λ k. omega (arith, same k, valid.ids k);
    payment_ids = valid.payment_ids;
    settled = close-All rs unpaid valid.settled;
    positive = valid.positive;
    linked = λ k none_left. valid.linked k (sym (same k) ∙ none_left);
  }
    where
      same :
          (k : ℕ)
          → count_by (λ r. r.id == k) (modify (is_receivable_of org sale_id) (closed now) rs)
            ≡ count_by (λ r. r.id == k) rs
      same k =
          count_by-modify_same (is_receivable_of org sale_id) (λ r. r.id == k) (closed now) rs
            (λ r e. refl)

module _ (now id org : ℕ) (sale : SaleRow) (ss : List SaleRow)
    (found : find_first (sale_key id org) ss ≡ some sale)
    (current : is_current sale.status ≡ true) where
  abbrev after : List SaleRow
  after =
      modify (λ s. s.id == sale.id) (undone now) (modify (λ s. s.id == sale.id) drop_commissions ss)

  undone_moves :
      (u : ℕ)
      → sales_on u after
          + count_by (λ s. s.id == sale.id && (s.unit_id == u && is_current s.status)) ss
        ≡ sales_on u ss
  undone_moves u =
      let is = λ (s : SaleRow). s.id == sale.id in
      let on = λ (s : SaleRow). s.unit_id == u && is_current s.status in
      omega (
        arith,
        count_by-modify is on (undone now) (modify is drop_commissions ss),
        count_by_none (λ s. is s && on (undone now s)) (modify is drop_commissions ss)
            (λ s. ground arith),
        count_by-modify_same is on drop_commissions ss (λ s e. refl),
        count_by-modify_same is (λ s. is s && on s) drop_commissions ss (λ s e. refl),
      )

  fewer : sales_on sale.unit_id after + 1 ≤ sales_on sale.unit_id ss
  fewer = omega (
    arith,
    undone_moves sale.unit_id,
    count_by-find_first (sale_key id org)
        (λ s. s.id == sale.id && (s.unit_id == sale.unit_id && is_current s.status)) ss sale found
        (ground arith),
  )

  -- A sold unit is given back together with its one current sale.
  undo-IsBalanced :
      (us : List UnitRow) {rs : List ReservationRow} {ps : List ProposalRow}
      → IsBalanced us rs ps ss
      → IsBalanced
          (modify
            (is_sold_unit sale.unit_id org)
            (λ u. record u { status = UnitStatus.distratada })
            us)
          rs
          ps
          after
  undo-IsBalanced us valid = record {
    unit_ids = λ u. omega (arith, valid.unit_ids u, given_back (λ x. x.id == u) (λ x e. refl));
    proposal_ids = valid.proposal_ids;
    sale_ids = λ k. omega (
      arith,
      valid.sale_ids k,
      count_by-modify_same (λ s. s.id == sale.id) (λ s. s.id == k) (undone now)
          (modify (λ s. s.id == sale.id) drop_commissions ss) (λ s e. refl),
      count_by-modify_same (λ s. s.id == sale.id) (λ s. s.id == k) drop_commissions ss
          (λ s e. refl),
    );
    reserved = λ u. omega (
      arith,
      valid.reserved u,
      given_back (λ x. x.id == u && is_reservada x.status) (λ x e. ground arith),
    );
    sold = λ u. elim (Bool-cases (u == sale.unit_id)) [
      | inl e ↦ rw ((==_iff u sale.unit_id).0 e) (
          omega (
            arith,
            fewer,
            valid.sold sale.unit_id,
            valid.unit_ids sale.unit_id,
            status_on-rows_of is_sold sale.unit_id us,
          ))
      | inr e ↦ omega (
        arith,
        valid.sold u,
        undone_moves u,
        given_back (λ x. x.id == u && is_sold x.status) (λ x own. ground arith),
      )
    ];
  }
    where
      given_back :
          (q : UnitRow → Bool)
          → ((x : UnitRow)
              → is_sold_unit sale.unit_id org x ≡ true
              → q (record x { status = UnitStatus.distratada }) ≡ q x)
          → count_by q (
              modify
                (is_sold_unit sale.unit_id org)
                (λ x. record x { status = UnitStatus.distratada })
                us)
            ≡ count_by q us
      given_back q h =
          count_by-modify_same (is_sold_unit sale.unit_id org) q
            (λ x. record x { status = UnitStatus.distratada }) us h

not_some : {A : Type 0} (o : Option A) → is_some o ≡ false → o ≡ none
not_some none e = refl
not_some (some a) e = cc

-- A property of the account that the closing of receivables with nothing paid keeps.
abbrev pub Closes : (List ReceivableRow → List PaymentRow → Type 0) → Type 0
Closes A =
    (now org sale_id : ℕ) (ps : List PaymentRow) (rs : List ReceivableRow)
    → count_by (is_received sale_id) rs ≡ 0
    → A rs ps
    → A (modify (is_receivable_of org sale_id) (closed now) rs) ps

module _ (A : List ReceivableRow → List PaymentRow → Type 0) (closes : Closes A) where
  undo-Ensures :
      (now id : ℕ) (actor : Actor) (reason : Text) (db : Database)
      → IsKept IsBalanced A db
      → Ensures (λ _. IsKept IsBalanced A) (λ _. Unit {0}) (undo now id actor reason db)
  unfolding undo lock_sale
  undo-Ensures now id actor reason db h =
      Ensures-found _ _ _ _
        (λ sale found.
          Ensures-guard _ _ _ _
            (λ current. Ensures-get _ _ _ (
              Ensures-guard _ _ _ _
                (λ unpaid. Ensures-get _ _ _ (
                  Ensures-guard _ _ _ _
                    (λ _. Ensures-get _ _ _ (
                      Ensures-write _ _ _ (
                        Ensures-write _ _ _ (
                          Ensures-write _ _ _ (
                            Ensures-write _ _ _ (
                              Ensures-write _ _ _ (
                                Ensures-write _ _ _ (
                                  Ensures-write _ _ _ (
                                    Ensures-recorded_one _ _ (record {
                                      others =
                                          undo-IsBalanced now id actor.organization_id sale db.sales
                                            found (ground arith) db.units h.others;
                                      account =
                                          closes now actor.organization_id sale.id db.payments
                                            db.receivables (nothing_received sale.id unpaid)
                                            h.account;
                                    }))))))))))
                    tt))
                tt))
            tt)
        tt
    where
      nothing_received :
          (sale_id : ℕ)
          → is_some (find_first (is_received sale_id) db.receivables) ≡ false
          → count_by (is_received sale_id) db.receivables ≡ 0
      nothing_received sale_id none_found =
          find_first-none (is_received sale_id) db.receivables (not_some _ none_found)

  pub cancel_sale-Keeps :
      (now id : ℕ) (actor : Actor) (reason : Text) (db : Database)
      → IsConsistent db
      → A db.receivables db.payments
      → IsConsistent (state_of (cancel_sale now id actor reason db))
        × A
            (state_of (cancel_sale now id actor reason db)).receivables
            (state_of (cancel_sale now id actor reason db)).payments
  unfolding cancel_sale
  cancel_sale-Keeps now id actor reason db valid account =
      both_kept (cancel_sale now id actor reason db) db valid account (λ start.
        Ensures-then (λ _. IsKept IsBalanced A) _ _ _
          (Ensures-transaction _ _ (undo-Ensures now id actor reason db start) start)
          (λ _ d h. lock_sale-Ensures _ id actor.organization_id d h))

-- Whatever becomes of a request to cancel a sale, the units, reservations, proposals and sales stay
-- balanced and the receivables agree with their payments: the sale gives its unit back, and only
-- receivables with nothing paid are closed.
pub cancel_sale-IsReconciled :
    (now id : ℕ) (actor : Actor) (reason : Text) (db : Database)
    → IsConsistent db
    → IsReconciled db
    → IsConsistent (state_of (cancel_sale now id actor reason db))
      × IsReconciled (state_of (cancel_sale now id actor reason db))
cancel_sale-IsReconciled now id actor reason db valid account =
    cancel_sale-Keeps IsLedger close-IsLedger now id actor reason db valid account
