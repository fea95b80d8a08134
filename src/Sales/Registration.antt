-- ===== src/Sales/Registration.antt =====
-- The new sale and its receivables: the writes of `convertProposal` of src/sales/sales.service.ts.
use harpia_api.Prelude.{
  ℕ, ◌+◌, Bool, ◌&&◌, ◌||◌, Option, none, some, List, [], ◌∷◌, ◌++◌, map, Text, ◌==◌, same, is_some,
  or_else, eqb_text,
}
use harpia_api.Dates.{UtcDate}
use harpia_api.Table.{find_first}
use harpia_api.Store.{
  UnitStatus, SaleStatus, UnitRow, ReservationRow, ProposalRow, ProposalVersionRow,
  PaymentCondition, SaleBuyer, SaleCommission, SaleRow, DevelopmentRow, AuditEntry, AuditAction,
  EntityType, Actor, Action, Error, pure, raise_if, gets, modify_db, record_many, is_ativa,
  is_current, ◌>>=◌, ◌>>◌,
}
use harpia_api.Reservations.Expiry.{set_unit_status}
use harpia_api.Reservations.Requests.{entry}
use harpia_api.Proposals.Pricing.{text_or_null}
use harpia_api.Proposals.Expiry.{set_proposal}
use harpia_api.Receivables.Generation.{ReceivablePlanSource, generate_for_sale}
use harpia_api.Sales.Shapes.{SaleBuyerDto, CreateSaleCommissionDto}
use harpia_api.Sales.Winning.{convert_if_active, ensure_won_if_any}

-- ConvertProposalToSaleDto
pub record ConvertProposalToSaleDto : Type 0 where
  pub sale_number : Option Text
  pub sale_date : Option UtcDate
  pub notes : Option Text
  pub buyers : List SaleBuyerDto
  pub commissions : List CreateSaleCommissionDto

-- What the request takes from its surroundings: the date of today, the identifiers of the new rows
-- (the first of the plans and of the commissions) and the result of `generateSaleNumber`.
pub record SaleSetting : Type 0 where
  pub today : UtcDate
  pub sale_id : ℕ
  pub first_plan_id : ℕ
  pub first_commission_id : ℕ
  pub generated_number : Text

-- `dto.saleNumber || this.generateSaleNumber()`
abbrev pub number_or : Option Text → Text → Text
number_or none generated = generated
number_or (some []) generated = generated
number_or (some (c ∷ s)) generated = c ∷ s

abbrev pub new_sale :
    SaleSetting
    → Actor
    → UnitRow
    → ProposalRow
    → ProposalVersionRow
    → List SaleBuyer
    → List SaleCommission
    → ConvertProposalToSaleDto
    → SaleRow
new_sale at actor unit p version buyers commissions dto = record {
  id = at.sale_id;
  organization_id = actor.organization_id;
  development_id = unit.development_id;
  unit_id = unit.id;
  opportunity_id = p.opportunity_id;
  proposal_id = some p.id;
  sale_number = number_or dto.sale_number at.generated_number;
  status = SaleStatus.ativa;
  sale_date = or_else dto.sale_date at.today;
  gross_amount = version.base_price;
  discount_amount = version.discount;
  net_amount = version.final_price;
  notes = text_or_null dto.notes;
  created_by_user_id = actor.id;
  cancelled_at = none;
  buyers = buyers;
  payment_plan = version.conditions;
  commissions = commissions;
}

-- The unique keys of a sale: its proposal, its number within the tenant, and its unit while current.
abbrev pub conflicts : SaleRow → SaleRow → Bool
conflicts new s =
    (is_some new.proposal_id && same s.proposal_id new.proposal_id)
    || (s.organization_id == new.organization_id && eqb_text s.sale_number new.sale_number)
    || (s.unit_id == new.unit_id && is_current s.status && is_current new.status)

unfoldable pub insert_sale : SaleRow → Action (Unit {0})
insert_sale new = do
  taken ← gets (λ db. find_first (conflicts new) db.sales)
  raise_if (is_some taken) Error.unique_violation
  modify_db (λ db. record db { sales = db.sales ++ new ∷ [] })

-- The payment plan of the sale, with the identifiers from `id` on.
pub plans_from : ℕ → List PaymentCondition → List ReceivablePlanSource
plans_from id [] = []
plans_from id (c ∷ cs) =
    record {
      id = id;
      type = c.type;
      amount = c.amount;
      installments = c.installments;
      first_due_date = c.first_due_date;
      interval_months = c.interval_months;
      description = c.description;
    }
    ∷ plans_from (id + 1) cs

abbrev pub sold : ℕ → Actor → ProposalRow → ProposalRow
sold now actor p = record p {
  converted_to_sale_at = some now;
  converted_to_sale_by_user_id = some actor.id;
}

abbrev pub sale_entries : Actor → SaleRow → ProposalRow → UnitRow → List AuditEntry
sale_entries actor sale p unit =
    entry actor AuditAction.sale_created EntityType.sale sale.id
    ∷ (map (λ (b : SaleBuyer). entry actor AuditAction.sale_buyer_added EntityType.sale sale.id)
          sale.buyers
        ++ map
            (λ (c : SaleCommission).
              entry actor AuditAction.sale_commission_created EntityType.sale sale.id)
            sale.commissions
        ++ entry actor AuditAction.proposal_converted_to_sale EntityType.sales_proposal p.id
          ∷ entry actor AuditAction.update EntityType.unit unit.id
          ∷ [])

-- The sale and its receivables, once the guards have passed.
unfoldable pub register_sale :
    ℕ
    → SaleSetting
    → Actor
    → UnitRow
    → ProposalRow
    → ReservationRow
    → ProposalVersionRow
    → List SaleBuyer
    → List SaleCommission
    → DevelopmentRow
    → ConvertProposalToSaleDto
    → Action ℕ
unfolding convert_if_active ensure_won_if_any insert_sale plans_from generate_for_sale
register_sale now at actor unit p r version buyers commissions development dto = do
  handed_over ← convert_if_active (is_ativa r.status) now actor r
  won ← ensure_won_if_any now p unit actor
  let sale = new_sale at actor unit p version buyers commissions dto
  insert_sale sale
  generate_for_sale
      (record {
        id = sale.id;
        organization_id = actor.organization_id;
        company_id = development.company_id;
        sale_date = sale.sale_date;
        expected_delivery_date = development.expected_delivery_date;
      })
      (plans_from at.first_plan_id sale.payment_plan) actor.id
  modify_db (set_proposal p.id (sold now actor))
  modify_db (set_unit_status unit.id UnitStatus.vendida)
  record_many (handed_over ++ won ++ sale_entries actor sale p unit)
  pure sale.id
