-- ===== src/Sales/Updates.antt =====
-- Changes to a sale: `update` and `addCommission` of src/sales/sales.service.ts.
use harpia_api.Prelude.{
  ℕ, Bool, false, ◌&&◌, not, Option, none, some, List, [], ◌∷◌, ◌++◌, Text, ◌==◌, is_some, or_else,
  eqb_text,
}
use harpia_api.Dates.{UtcDate}
use harpia_api.Table.{find_first, modify}
use harpia_api.Store.{
  SaleRow, SaleCommission, Database, AuditAction, EntityType, Actor, Action, Error, pure, raise_if,
  gets, transaction, on_unique_violation, modify_db, record_one, is_current, ◌>>=◌, ◌>>◌,
}
use harpia_api.Reservations.Requests.{entry}
use harpia_api.Proposals.Pricing.{text_or_null}
use harpia_api.Sales.Shapes.{CreateSaleCommissionDto, validate_commission_shape}
use harpia_api.Sales.Tenancy.{validate_commission_tenancy}
use harpia_api.Sales.Conversion.{lock_sale}

-- UpdateSaleDto; `notes` given as an empty text removes them.
pub record UpdateSaleDto : Type 0 where
  pub sale_number : Option Text
  pub sale_date : Option UtcDate
  pub notes : Option Text

abbrev pub is_empty_update : UpdateSaleDto → Bool
is_empty_update dto =
    not (is_some dto.sale_number) && not (is_some dto.sale_date) && not (is_some dto.notes)

abbrev pub updated_notes : Option Text → Option Text → Option Text
updated_notes none old = old
updated_notes (some new) old = text_or_null (some new)

abbrev pub updated : UpdateSaleDto → SaleRow → SaleRow
updated dto s = record s {
  sale_number = or_else dto.sale_number s.sale_number;
  sale_date = or_else dto.sale_date s.sale_date;
  notes = updated_notes dto.notes s.notes;
}

-- Another sale of the tenant with the number.
abbrev pub has_number : ℕ → ℕ → Option Text → SaleRow → Bool
has_number id org none s = false
has_number id org (some number) s =
    not (s.id == id) && s.organization_id == org && eqb_text s.sale_number number

abbrev pub set_sale : ℕ → (SaleRow → SaleRow) → Database → Database
set_sale id f db = record db { sales = modify (λ s. s.id == id) f db.sales }

unfoldable pub update : ℕ → Actor → UpdateSaleDto → Action SaleRow
unfolding lock_sale
update id actor dto = do
  raise_if (is_empty_update dto) Error.nothing_to_update
  on_unique_violation Error.sale_number_in_use (
      transaction (do
        sale ← lock_sale id actor.organization_id
        taken ←
            gets (λ db. find_first (has_number id actor.organization_id dto.sale_number) db.sales)
        raise_if (is_some taken) Error.unique_violation
        modify_db (set_sale id (updated dto))
        record_one (entry actor AuditAction.sale_updated EntityType.sale id)))
  lock_sale id actor.organization_id

abbrev pub with_commissions : List SaleCommission → SaleRow → SaleRow
with_commissions cs s = record s { commissions = s.commissions ++ cs }

-- The callback of `addCommission`; `commission_id` is the identifier of the new row.
unfoldable pub add_to_sale : ℕ → ℕ → Actor → CreateSaleCommissionDto → Action (Unit {0})
unfolding lock_sale validate_commission_tenancy
add_to_sale id commission_id actor dto = do
  sale ← lock_sale id actor.organization_id
  raise_if (not (is_current sale.status)) Error.sale_closed
  commissions ← validate_commission_tenancy commission_id actor.organization_id (dto ∷ [])
  modify_db (set_sale id (with_commissions commissions))
  record_one (entry actor AuditAction.sale_commission_created EntityType.sale id)

abbrev pub commission_of : ℕ → SaleRow → Option SaleCommission
commission_of id s = find_first (λ c. c.id == id) s.commissions

unfoldable pub add_commission :
    ℕ → ℕ → Actor → CreateSaleCommissionDto → Action (Option SaleCommission)
unfolding validate_commission_shape add_to_sale lock_sale
add_commission id commission_id actor dto = do
  validate_commission_shape (dto ∷ [])
  transaction (add_to_sale id commission_id actor dto)
  sale ← lock_sale id actor.organization_id
  pure (commission_of commission_id sale)
