-- ===== src/UnitHolds/Sales/Conversion.antt =====
-- `convertProposal` of src/sales/sales.service.ts, the commercial invariant and the receivables
-- account.
use harpia_api.Prelude.{ℕ, ◌≡◌, refl, true, Option, none, some, List, [], ◌∷◌, arith, ◌==◌}
use harpia_api.Table.{find_first, count_by}
use harpia_api.Store.{
  UnitRow, ReservationRow, ProposalRow, SaleRow, Database, Actor, state_of, is_reservada, Ensures,
  Ensures-bind, Ensures-then, Ensures-get, Ensures-row, Ensures-found, Ensures-guard, Ensures-write,
  Ensures-pure, Ensures-transaction, Ensures-unique, PersonRoleRow, ReceivableRow, PaymentRow,
}
use harpia_api.Receivables.Ledger.{IsReconciled, IsLedger}
use harpia_api.Receivables.Generated.{Grows, IsKept, insert-IsLedger}
use harpia_api.Sales.Shapes.{SaleBuyerDto}
use harpia_api.Sales.Tenancy.{
  upsert_role, upsert_roles, validate_buyer_tenancy, role_key, with_role,
}
use harpia_api.Sales.Registration.{ConvertProposalToSaleDto, SaleSetting}
use harpia_api.Sales.Conversion.{
  check_convertible, find_version, find_development, convert_new, convert_or_existing,
  convert_locked, convert_proposal,
}
use harpia_api.UnitHolds.Accounts.{IsBalanced, IsConsistent, is_pending}
use harpia_api.UnitHolds.Reservations.Expiry.{Ensures-lock_unit}
use harpia_api.UnitHolds.Proposals.Expiry.{Ensures-lock_proposal}
use harpia_api.UnitHolds.Proposals.Acceptance.{lock_optional-Ensures}
use harpia_api.UnitHolds.Sales.Registration.{Selling, register_sale-Ensures}
use harpia_api.UnitHolds.Sales.Reading.{
  assert_payment_plan-Ensures, validate_commission_tenancy-Ensures,
  validate_commission_shape-Ensures, validate_buyer_shape-Ensures, lock_sale-Ensures, both_kept,
}

-- The roles of the buyers are in a table of their own.
module _ (A : List ReceivableRow → List PaymentRow → Type 0) (sale_id id org : ℕ) (unit : UnitRow)
    (p : ProposalRow) where
  upsert_role-Selling :
      (person_id : ℕ) (db : Database)
      → Selling A sale_id id org unit p db
      → Selling A sale_id id org unit p (upsert_role org person_id db)
  upsert_role-Selling person_id db h = go (find_first (role_key person_id) db.person_roles)
    where
      go :
          (o : Option PersonRoleRow)
          → Selling A sale_id id org unit p
              (elim o [ some r ↦ db | none ↦ with_role org person_id db ])
      go none = record {
        balanced = h.balanced;
        locked = h.locked;
        found = h.found;
        fresh = h.fresh;
        account = h.account;
      }
      go (some r) = h

  upsert_roles-Ensures :
      (ids : List ℕ) (db : Database)
      → Selling A sale_id id org unit p db
      → Ensures (λ _. Selling A sale_id id org unit p) (λ _. Unit {0}) (upsert_roles org ids db)
  unfolding upsert_roles
  upsert_roles-Ensures [] db h = Ensures-pure _ _ h
  upsert_roles-Ensures (i ∷ is) db h =
      Ensures-write _ _ _ (upsert_roles-Ensures is _ (upsert_role-Selling i db h))

  validate_buyer_tenancy-Ensures :
      (person_id : ℕ) (buyers : List SaleBuyerDto) (db : Database)
      → Selling A sale_id id org unit p db
      → Ensures
          (λ _. Selling A sale_id id org unit p)
          (λ _. Unit {0})
          (validate_buyer_tenancy org person_id buyers db)
  unfolding validate_buyer_tenancy
  validate_buyer_tenancy-Ensures person_id buyers db h = Ensures-get _ _ _ (
      Ensures-guard _ _ _ _
        (λ _.
          Ensures-guard _ _ _ _
            (λ _.
              Ensures-then (λ _. Selling A sale_id id org unit p) _ _ _
                (upsert_roles-Ensures _ db h) (λ _ d k. Ensures-pure _ _ k))
            tt)
        tt)

module _ (now : ℕ) (at : SaleSetting) (id : ℕ) (actor : Actor) (dto : ConvertProposalToSaleDto)
    (unit : UnitRow) (held : Option ReservationRow) (p : ProposalRow) where
  -- The guards change nothing, and what they let through can be sold.
  check_convertible-Ensures :
      (db : Database)
      → Ensures
          (λ _ d.
            (d ≡ db)
            × (is_pending p ≡ true)
            × (p.unit_id ≡ unit.id)
            × (is_reservada unit.status ≡ true))
          (λ _. Unit {0})
          (check_convertible now actor.organization_id unit held p db)
  unfolding check_convertible
  check_convertible-Ensures db =
      Ensures-guard _ _ _ _
        (λ accepted.
          Ensures-guard _ _ _ _
            (λ unsold.
              Ensures-guard _ _ _ _
                (λ reserved.
                  Ensures-row _ _ _ _
                    (λ r _.
                      Ensures-guard _ _ _ _
                        (λ _.
                          Ensures-guard _ _ _ _
                            (λ _. Ensures-get _ _ _ (
                              Ensures-guard _ _ _ _
                                (λ _.
                                  Ensures-pure _ _ (refl, ground arith, ground arith, ground arith))
                                tt))
                            tt)
                        tt)
                    tt)
                tt)
            tt)
        tt

module _ (A : List ReceivableRow → List PaymentRow → Type 0) (grows : Grows A) (now : ℕ)
    (at : SaleSetting) (id : ℕ) (actor : Actor) (dto : ConvertProposalToSaleDto) (unit : UnitRow)
    (held : Option ReservationRow) (p : ProposalRow) where
  convert_new-Ensures :
      (db : Database)
      → Selling A at.sale_id id actor.organization_id unit p db
      → Ensures
          (λ _. IsKept IsBalanced A)
          (λ _. Unit {0})
          (convert_new now at actor dto unit held p db)
  unfolding convert_new find_version find_development
  convert_new-Ensures db h =
      Ensures-bind _ _ _ _ (check_convertible-Ensures now at id actor dto unit held p db)
        (λ r d (same, pending, placed, reserved). rw same (
          Ensures-found _ _ _ _
            (λ version _.
              Ensures-then (λ _. Selling A at.sale_id id actor.organization_id unit p) _ _ _
                (assert_payment_plan-Ensures _ _ _ db h)
                (λ _ d1 h1.
                  Ensures-bind (λ _. Selling A at.sale_id id actor.organization_id unit p) _ _ _
                    (validate_buyer_tenancy-Ensures A at.sale_id id actor.organization_id unit p
                      p.person_id dto.buyers d1 h1)
                    (λ buyers d2 h2.
                      Ensures-bind (λ _. Selling A at.sale_id id actor.organization_id unit p) _ _ _
                        (validate_commission_tenancy-Ensures _ at.first_commission_id
                          actor.organization_id dto.commissions d2 h2)
                        (λ commissions d3 h3.
                          Ensures-found _ _ _ _
                            (λ development _.
                              register_sale-Ensures A grows now at id actor unit p r version buyers
                                commissions development dto d3 placed reserved pending h3)
                            tt))))
            tt))

  convert_or_existing-Ensures :
      (existing : Option SaleRow) (db : Database)
      → Selling A at.sale_id id actor.organization_id unit p db
      → Ensures
          (λ _. IsKept IsBalanced A)
          (λ _. Unit {0})
          (convert_or_existing existing now at actor dto unit held p db)
  unfolding convert_or_existing
  convert_or_existing-Ensures none db h = convert_new-Ensures db h
  convert_or_existing-Ensures (some sale) db h =
      Ensures-pure _ _ (record { others = h.balanced; account = h.account })

module _ (A : List ReceivableRow → List PaymentRow → Type 0) (grows : Grows A) where
  convert_locked-Ensures :
      (now : ℕ) (at : SaleSetting) (id : ℕ) (actor : Actor) (dto : ConvertProposalToSaleDto)
      (candidate : ProposalRow) (db : Database)
      → count_by (λ s. s.id == at.sale_id) db.sales ≡ 0
      → IsKept IsBalanced A db
      → Ensures
          (λ _. IsKept IsBalanced A)
          (λ _. Unit {0})
          (convert_locked now at id actor dto candidate db)
  unfolding convert_locked
  convert_locked-Ensures now at id actor dto candidate db fresh h =
      Ensures-lock_unit _ _ _ _
        (λ unit _ locked.
          Ensures-bind _ _ _ _
            (lock_optional-Ensures candidate.reservation_id actor.organization_id db tt)
            (λ held d (same, _). rw same (
              Ensures-lock_proposal _ _ _ _
                (λ p found. Ensures-get _ _ _ (
                  convert_or_existing-Ensures A grows now at id actor dto unit held p _ db (record {
                    balanced = h.others;
                    locked = locked;
                    found = found;
                    fresh = fresh;
                    account = h.account;
                  })))
                tt)))
        tt

  pub convert_proposal-Keeps :
      (now : ℕ) (at : SaleSetting) (id : ℕ) (actor : Actor) (dto : ConvertProposalToSaleDto)
      (db : Database)
      → count_by (λ s. s.id == at.sale_id) db.sales ≡ 0
      → IsConsistent db
      → A db.receivables db.payments
      → IsConsistent (state_of (convert_proposal now at id actor dto db))
        × A
            (state_of (convert_proposal now at id actor dto db)).receivables
            (state_of (convert_proposal now at id actor dto db)).payments
  unfolding convert_proposal
  convert_proposal-Keeps now at id actor dto db fresh valid account =
      both_kept {A = A} (convert_proposal now at id actor dto db) db valid account (λ start.
        Ensures-then (λ _ d. d ≡ db) _ _ _
          (validate_buyer_shape-Ensures (λ d. d ≡ db) _ dto.buyers db refl start)
          (λ _ d1 same1. rw same1 (
            Ensures-then (λ _ d. d ≡ db) _ _ _
              (validate_commission_shape-Ensures (λ d. d ≡ db) _ dto.commissions db refl start)
              (λ _ d2 same2. rw same2 (
                Ensures-lock_proposal _ _ _ _
                  (λ candidate _. Ensures-unique _ _ _ (
                    Ensures-bind (λ _. IsKept IsBalanced A) _ _ _
                      (Ensures-transaction _ _
                        (convert_locked-Ensures now at id actor dto candidate db fresh start) start)
                      (λ sale_id d3 h3. lock_sale-Ensures _ sale_id actor.organization_id d3 h3)))
                  start)))))

-- Whatever becomes of a request to convert an accepted proposal into a sale, the units,
-- reservations, proposals and sales stay balanced and the receivables agree with their payments: a
-- new sale takes the unit over from its proposal, and its receivables start with
-- nothing paid. The identifier of the new sale is new.
pub convert_proposal-IsReconciled :
    (now : ℕ) (at : SaleSetting) (id : ℕ) (actor : Actor) (dto : ConvertProposalToSaleDto)
    (db : Database)
    → count_by (λ s. s.id == at.sale_id) db.sales ≡ 0
    → IsConsistent db
    → IsReconciled db
    → IsConsistent (state_of (convert_proposal now at id actor dto db))
      × IsReconciled (state_of (convert_proposal now at id actor dto db))
convert_proposal-IsReconciled now at id actor dto db fresh valid account =
    convert_proposal-Keeps IsLedger insert-IsLedger now at id actor dto db fresh valid account
