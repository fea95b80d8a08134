-- ===== src/Sales/Conversion.antt =====
-- The conversion of an accepted proposal into a sale: `convertProposal` and `validateReservation` of
-- src/sales/sales.service.ts.
use harpia_api.Prelude.{
  ℕ, Bool, ◌&&◌, ◌||◌, not, Option, none, some, ltb, ◌==◌, same, is_some, is_value,
}
use harpia_api.Table.{find_first}
use harpia_api.Store.{
  UnitRow, ReservationRow, ProposalRow, ProposalVersionRow, SaleRow, DevelopmentRow, Actor, Action,
  Error, pure, or_raise, raise_if, gets, transaction, on_unique_violation, is_ativa, is_convertida,
  is_reservada, is_aceita, is_current, ◌>>=◌, ◌>>◌,
}
use harpia_api.Reservations.Expiry.{lock_unit}
use harpia_api.Proposals.Expiry.{lock_proposal}
use harpia_api.Proposals.Requests.{lock_optional_reservation}
use harpia_api.Sales.Shapes.{validate_buyer_shape, validate_commission_shape, assert_payment_plan}
use harpia_api.Sales.Tenancy.{validate_buyer_tenancy, validate_commission_tenancy}
use harpia_api.Sales.Registration.{ConvertProposalToSaleDto, SaleSetting, register_sale}

abbrev pub sale_of_unit : ℕ → ℕ → SaleRow → Bool
sale_of_unit unit_id org s = s.organization_id == org && s.unit_id == unit_id && is_current s.status

-- The guards on the proposal, the unit, the reservation (`validateReservation`) and earlier sales.
-- Returns the reservation.
unfoldable pub check_convertible :
    ℕ → ℕ → UnitRow → Option ReservationRow → ProposalRow → Action ReservationRow
check_convertible now org unit held p = do
  raise_if (not (is_aceita p.status) || not (is_some p.current_version_id))
      Error.proposal_not_accepted
  raise_if (is_some p.converted_to_sale_at) Error.proposal_already_converted
  raise_if (not (p.unit_id == unit.id) || not (is_reservada unit.status)) Error.unit_not_reserved
  r ← or_raise held Error.no_source_reservation
  raise_if
      (not (r.unit_id == p.unit_id)
        || not (r.person_id == p.person_id)
        || not (same r.opportunity_id p.opportunity_id))
      Error.reservation_mismatch
  raise_if (not (is_convertida r.status) && not (is_ativa r.status && ltb now r.expires_at))
      Error.reservation_not_convertible
  active ← gets (λ db. find_first (sale_of_unit unit.id org) db.sales)
  raise_if (is_some active) Error.unit_already_sold
  pure r

abbrev pub version_key : ProposalRow → ℕ → ProposalVersionRow → Bool
version_key p org v =
    is_value p.current_version_id v.id && v.proposal_id == p.id && v.organization_id == org

unfoldable pub find_version : ProposalRow → ℕ → Action ProposalVersionRow
find_version p org = do
  or_raise (← gets (λ db. find_first (version_key p org) db.proposal_versions))
      Error.version_missing

unfoldable pub find_development : ℕ → ℕ → Action DevelopmentRow
find_development id org = do
  or_raise (← gets (λ db. find_first (λ d. d.id == id && d.organization_id == org) db.developments))
      Error.development_unavailable

unfoldable pub convert_new :
    ℕ
    → SaleSetting
    → Actor
    → ConvertProposalToSaleDto
    → UnitRow
    → Option ReservationRow
    → ProposalRow
    → Action ℕ
unfolding check_convertible find_version assert_payment_plan validate_buyer_tenancy
    validate_commission_tenancy find_development register_sale
convert_new now at actor dto unit held p = do
  r ← check_convertible now actor.organization_id unit held p
  version ← find_version p actor.organization_id
  assert_payment_plan version.final_price version.conditions
  buyers ← validate_buyer_tenancy actor.organization_id p.person_id dto.buyers
  commissions ←
      validate_commission_tenancy at.first_commission_id actor.organization_id dto.commissions
  development ← find_development unit.development_id actor.organization_id
  register_sale now at actor unit p r version buyers commissions development dto

-- A proposal that has a sale gives that sale.
unfoldable pub convert_or_existing :
    Option SaleRow
    → ℕ
    → SaleSetting
    → Actor
    → ConvertProposalToSaleDto
    → UnitRow
    → Option ReservationRow
    → ProposalRow
    → Action ℕ
unfolding convert_new
convert_or_existing (some sale) now at actor dto unit held p = pure sale.id
convert_or_existing none now at actor dto unit held p = convert_new now at actor dto unit held p

-- The callback of `convertProposal`, for the unit and the reservation that the proposal named before.
unfoldable pub convert_locked :
    ℕ → SaleSetting → ℕ → Actor → ConvertProposalToSaleDto → ProposalRow → Action ℕ
unfolding lock_optional_reservation lock_proposal convert_or_existing
convert_locked now at proposal_id actor dto candidate = do
  unit ← lock_unit candidate.unit_id actor.organization_id
  held ← lock_optional_reservation candidate.reservation_id actor.organization_id
  p ← lock_proposal proposal_id actor.organization_id
  existing ← gets (λ db.
      find_first (λ s. is_value s.proposal_id p.id && s.organization_id == actor.organization_id)
        db.sales)
  convert_or_existing existing now at actor dto unit held p

abbrev pub sale_key : ℕ → ℕ → SaleRow → Bool
sale_key id org s = s.id == id && s.organization_id == org

-- `lockSale`, and the row that `findOne` reads
unfoldable pub lock_sale : ℕ → ℕ → Action SaleRow
lock_sale id org = do
  or_raise (← gets (λ db. find_first (sale_key id org) db.sales)) Error.sale_not_found

unfoldable pub convert_proposal :
    ℕ → SaleSetting → ℕ → Actor → ConvertProposalToSaleDto → Action SaleRow
unfolding validate_buyer_shape validate_commission_shape lock_proposal convert_locked lock_sale
convert_proposal now at proposal_id actor dto = do
  validate_buyer_shape dto.buyers
  validate_commission_shape dto.commissions
  candidate ← lock_proposal proposal_id actor.organization_id
  on_unique_violation Error.sale_already_registered (do
    sale_id ← transaction (convert_locked now at proposal_id actor dto candidate)
    lock_sale sale_id actor.organization_id)
