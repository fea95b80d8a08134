-- ===== src/Payables/Commissions.antt =====
-- `markCommissionDue` of src/finance/payables.service.ts.
use harpia_api.Prelude.{
  ℕ, Bool, true, false, ◌&&◌, Option, none, some, [], ◌∷◌, ◌++◌, Text, ◌==◌, is_value, or_else,
}
use harpia_api.Table.{find_first}
use harpia_api.Store.{
  SaleCommissionStatus, SaleCommission, SaleRow, DevelopmentRow, PayableStatus, PayableSourceType,
  PayableRow, FinancialCategoryRow, AuditAction, EntityType, Actor, Action, Error, or_raise,
  raise_if, gets, transaction, modify_db, record_one, pure, ◌>>=◌, ◌>>◌,
}
use harpia_api.Reservations.Requests.{entry}
use harpia_api.Payables.Setup.{expense_category, comissao_text}
use harpia_api.Payables.Changes.{lock_payable, insert_payable}
use harpia_api.Payables.Payments.{has_commission, set_commission}

-- "Comissão · venda "
abbrev pub commission_text : Text
commission_text =
    67 ∷ 111 ∷ 109 ∷ 105 ∷ 115 ∷ 115 ∷ 227 ∷ 111 ∷ 32 ∷ 183 ∷ 32 ∷ 118 ∷ 101 ∷ 110 ∷ 100 ∷ 97 ∷ 32
    ∷ []

abbrev pub is_closed_commission : SaleCommissionStatus → Bool
is_closed_commission SaleCommissionStatus.paga = true
is_closed_commission SaleCommissionStatus.cancelada = true
is_closed_commission _ = false

abbrev pub company_of : Option DevelopmentRow → Option ℕ
company_of none = none
company_of (some d) = d.company_id

abbrev pub commission_payable :
    ℕ → ℕ → ℕ → SaleRow → SaleCommission → Option DevelopmentRow → FinancialCategoryRow → PayableRow
commission_payable id org due_date sale c development category = record {
  id = id;
  organization_id = org;
  company_id = company_of development;
  development_id = some sale.development_id;
  bank_account_id = none;
  category_id = some category.id;
  cost_center_id = none;
  supplier_person_id = c.person_id;
  sale_commission_id = some c.id;
  investor_return_id = none;
  source_type = some PayableSourceType.sale_commission;
  description = commission_text ++ sale.sale_number;
  due_date = due_date;
  original_amount = c.amount;
  paid_amount = 0;
  status = PayableStatus.pendente;
  paid_at = none;
  cancelled_at = none;
}

-- `tx.payable.upsert` by the commission, with nothing to update
unfoldable pub upsert_payable : Option PayableRow → PayableRow → Action ℕ
upsert_payable (some p) new = pure p.id
upsert_payable none new = modify_db (insert_payable new) >> pure new.id

-- The callback of `markCommissionDue`; `id` is the identifier that the database gives a new payable.
unfoldable pub make_due : ℕ → ℕ → ℕ → Actor → Option ℕ → Action ℕ
unfolding expense_category upsert_payable
make_due now id commission_id actor due_date = do
  sale ←
      or_raise
        (← gets (λ db.
          find_first
            (λ s. has_commission commission_id s && s.organization_id == actor.organization_id)
            db.sales))
        Error.commission_not_found
  commission ←
      or_raise (find_first (λ c. c.id == commission_id) sale.commissions) Error.commission_not_found
  development ← gets (λ db. find_first (λ d. d.id == sale.development_id) db.developments)
  raise_if (is_closed_commission commission.status) Error.commission_closed
  category ← expense_category actor.organization_id comissao_text
  modify_db (set_commission commission.id SaleCommissionStatus.devida)
  existing ← gets (λ db. find_first (λ p. is_value p.sale_commission_id commission.id) db.payables)
  payable_id ← upsert_payable existing (
      commission_payable id actor.organization_id (or_else due_date now) sale commission development
        category)
  record_one (entry actor AuditAction.payable_created EntityType.payable payable_id)
  pure payable_id

-- `markCommissionDue`
unfoldable pub mark_commission_due : ℕ → ℕ → ℕ → Actor → Option ℕ → Action PayableRow
unfolding make_due lock_payable
mark_commission_due now id commission_id actor due_date = do
  payable_id ← transaction (make_due now id commission_id actor due_date)
  lock_payable payable_id actor.organization_id
