-- ===== src/UnitHolds/Sales/Registration.antt =====
-- The writes of `convertProposal` of src/sales/sales.service.ts, the commercial invariant and the
-- receivables account.
use harpia_api.Prelude.{ℕ, ◌≡◌, refl, Bool, true, false, some, List, ◌==◌}
use harpia_api.Table.{find_first, modify, count_by}
use harpia_api.Store.{
  UnitStatus, UnitRow, ReservationRow, ProposalRow, ProposalVersionRow, SaleBuyer, SaleCommission,
  SaleRow, DevelopmentRow, ReceivableRow, PaymentRow, Database, Actor, is_ativa, is_reservada,
  Ensures, Ensures-bind, Ensures-then, Ensures-get, Ensures-guard, Ensures-write, Ensures-written,
  Ensures-pure, Ensures-record_many,
}
use harpia_api.Reservations.Expiry.{unit_key}
use harpia_api.Proposals.Expiry.{proposal_key}
use harpia_api.Receivables.Generated.{Grows, IsKept, Ensures-generate_for_sale}
use harpia_api.Sales.Winning.{convert_if_active}
use harpia_api.Sales.Registration.{
  ConvertProposalToSaleDto, SaleSetting, new_sale, sold, insert_sale, register_sale,
}
use harpia_api.UnitHolds.Accounts.{IsBalanced, is_pending}
use harpia_api.UnitHolds.Balance.{shrink}
use harpia_api.UnitHolds.Status.{written}
use harpia_api.UnitHolds.Sales.Counts.{active_on-converted, sell}
use harpia_api.UnitHolds.Sales.Winning.{ensure_won_if_any-Keeps}

-- The tables before the sale is inserted: the unit and the proposal are as they were locked.
pub record IsSelling (A : List ReceivableRow → List PaymentRow → Type 0) (sale_id id org : ℕ)
    (unit : UnitRow) (p : ProposalRow) (us : List UnitRow) (rs : List ReservationRow)
    (ps : List ProposalRow) (ss : List SaleRow) (cs : List ReceivableRow) (ys : List PaymentRow)
    : Type 0 where
  pub balanced : IsBalanced us rs ps ss
  pub locked : find_first (unit_key unit.id org) us ≡ some unit
  pub found : find_first (proposal_key id org) ps ≡ some p
  pub fresh : count_by (λ s. s.id == sale_id) ss ≡ 0
  pub account : A cs ys

-- The tables once it is inserted, as the updates of the proposal and the unit will find them.
abbrev IsSold :
    ℕ
    → Actor
    → UnitRow
    → ProposalRow
    → List UnitRow
    → List ReservationRow
    → List ProposalRow
    → List SaleRow
    → Type 0
IsSold now actor unit p us rs ps ss =
    IsBalanced (written unit.id UnitStatus.vendida us) rs
      (modify (λ x. x.id == p.id) (sold now actor) ps) ss

abbrev pub Selling :
    (List ReceivableRow → List PaymentRow → Type 0)
    → ℕ
    → ℕ
    → ℕ
    → UnitRow
    → ProposalRow
    → Database
    → Type 0
Selling A sale_id id org unit p db =
    IsSelling A sale_id id org unit p db.units db.reservations db.proposals db.sales db.receivables
      db.payments

module _ (A : List ReceivableRow → List PaymentRow → Type 0) (grows : Grows A) where
  convert_if_active-Ensures :
      (active : Bool) (now sale_id id org : ℕ) (unit : UnitRow) (p : ProposalRow) (actor : Actor)
      (r : ReservationRow) (db : Database)
      → Selling A sale_id id org unit p db
      → Ensures
          (λ _. Selling A sale_id id org unit p)
          (λ _. Unit {0})
          (convert_if_active active now actor r db)
  unfolding convert_if_active
  convert_if_active-Ensures false now sale_id id org unit p actor r db h = Ensures-pure _ _ h
  convert_if_active-Ensures true now sale_id id org unit p actor r db h = Ensures-write _ _ _ (
      Ensures-pure _ _ (record {
        balanced = shrink h.balanced (active_on-converted r.id now actor db.reservations);
        locked = h.locked;
        found = h.found;
        fresh = h.fresh;
        account = h.account;
      }))

  pub register_sale-Ensures :
      (now : ℕ) (at : SaleSetting) (id : ℕ) (actor : Actor) (unit : UnitRow) (p : ProposalRow)
      (r : ReservationRow) (version : ProposalVersionRow) (buyers : List SaleBuyer)
      (commissions : List SaleCommission) (development : DevelopmentRow)
      (dto : ConvertProposalToSaleDto) (db : Database)
      → p.unit_id ≡ unit.id
      → is_reservada unit.status ≡ true
      → is_pending p ≡ true
      → Selling A at.sale_id id actor.organization_id unit p db
      → Ensures
          (λ _. IsKept IsBalanced A)
          (λ _. Unit {0})
          (register_sale now at actor unit p r version buyers commissions development dto db)
  unfolding register_sale insert_sale
  register_sale-Ensures now at id actor unit p r version buyers commissions development dto db same
        reserved pending h =
      Ensures-bind _ _ _ _
        (convert_if_active-Ensures (is_ativa r.status) now at.sale_id id actor.organization_id unit
          p actor r db h)
        (λ handed d k.
          Ensures-bind _ _ _ _
            (ensure_won_if_any-Keeps (IsSelling A at.sale_id id actor.organization_id unit p) now p
              unit actor d k)
            (λ won d' k'.
              Ensures-then (λ _. IsKept (IsSold now actor unit p) A) _ _ _
                (Ensures-get _ _ _ (
                  Ensures-guard _ _ _ _
                    (λ _. Ensures-written _ _ (record {
                      others =
                          sell now id actor.organization_id actor d'.proposals p k'.found
                            (new_sale at actor unit p version buyers commissions dto) k'.balanced
                            k'.locked same reserved pending refl k'.fresh;
                      account = k'.account;
                    }))
                    tt))
                (λ _ d'' k''.
                  Ensures-then (λ _. IsKept (IsSold now actor unit p) A) _ _ _
                    (Ensures-generate_for_sale (IsSold now actor unit p) A grows _ _ actor.id d''
                      k'')
                    (λ _ e kept. Ensures-write _ _ _ (
                      Ensures-write _ _ _ (
                        Ensures-record_many _ _ _ (
                          Ensures-pure _ _
                            (record { others = kept.others; account = kept.account }))))))))
