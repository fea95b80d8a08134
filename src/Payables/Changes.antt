-- ===== src/Payables/Changes.antt =====
-- `create`, `update`, `cancel` and `assertReferences` of src/finance/payables.service.ts.
use harpia_api.Prelude.{
  ℕ, Bool, true, false, ◌&&◌, not, Option, none, some, List, [], ◌∷◌, ◌++◌, Text, ◌==◌, ltb, leb,
  is_some, or_else, if◌then◌else◌,
}
use harpia_api.Table.{find_first, modify}
use harpia_api.Store.{
  FinancialCategoryType, FinancialCategoryRow, DevelopmentRow, PayableStatus, PayableRow, Database,
  AuditAction, EntityType, Actor, Action, Error, or_raise, raise_if, gets, transaction, modify_db,
  record_one, pure, ◌>>=◌, ◌>>◌, check_rows, payables_hold,
}
use harpia_api.Reservations.Requests.{entry}
use harpia_api.Payables.Setup.{ensure_organization}

abbrev pub payable_key : ℕ → ℕ → PayableRow → Bool
payable_key id org p = p.id == id && p.organization_id == org

-- `lockPayable`; `findOne` reads the same row.
unfoldable pub lock_payable : ℕ → ℕ → Action PayableRow
lock_payable id org = do
  or_raise (← gets (λ db. find_first (payable_key id org) db.payables)) Error.payable_not_found

abbrev pub set_payable : ℕ → (PayableRow → PayableRow) → Database → Database
set_payable id f db = record db { payables = modify (λ p. p.id == id) f db.payables }

-- The optional references of CreatePayableDto, as `assertReferences` takes them.
pub record PayableReferences : Type 0 where
  pub company_id : Option ℕ
  pub development_id : Option ℕ
  pub bank_account_id : Option ℕ
  pub category_id : Option ℕ
  pub cost_center_id : Option ℕ
  pub supplier_person_id : Option ℕ

-- CreatePayableDto; its pattern takes amounts of at least one cent.
pub record CreatePayableDto : Type 0 where
  pub description : Text
  pub due_date : ℕ
  pub original_amount : ℕ
  pub references : PayableReferences

-- UpdatePayableDto: a field that is not given is `none`, a reference may be given as null.
pub record UpdatePayableDto : Type 0 where
  pub description : Option Text
  pub due_date : Option ℕ
  pub original_amount : Option ℕ
  pub company_id : Option (Option ℕ)
  pub development_id : Option (Option ℕ)
  pub bank_account_id : Option (Option ℕ)
  pub category_id : Option (Option ℕ)
  pub cost_center_id : Option (Option ℕ)
  pub supplier_person_id : Option (Option ℕ)

module _ {R : Type 0} where
  -- A reference that is given and whose row is not there.
  abbrev pub is_dangling : Option ℕ → Option R → Bool
  is_dangling (some id) none = true
  is_dangling _ _ = false

  -- The row of a reference, where there is one.
  abbrev pub referred : Option ℕ → (ℕ → R → Bool) → List R → Option R
  referred none key rs = none
  referred (some id) key rs = find_first (key id) rs

abbrev pub of_other_company : Option ℕ → Option DevelopmentRow → Bool
of_other_company (some company) (some d) = elim d.company_id [
  | none ↦ false
  | some k ↦ not (k == company)
]
of_other_company _ _ = false

abbrev pub is_revenue : Option FinancialCategoryRow → Bool
is_revenue none = false
is_revenue (some c) = elim c.type [
  | FinancialCategoryType.receita ↦ true
  | FinancialCategoryType.despesa ↦ false
]

-- `assertReferences`
unfoldable pub assert_references : ℕ → PayableReferences → Action (Unit {0})
assert_references org r = do
  company ←
      gets (λ db. referred r.company_id (λ k c. c.id == k && c.organization_id == org) db.companies)
  development ← gets (λ db.
      referred r.development_id (λ k d. d.id == k && d.organization_id == org) db.developments)
  bank_account ← gets (λ db.
      referred r.bank_account_id (λ k a. a.id == k && a.organization_id == org) db.bank_accounts)
  category ← gets (λ db.
      referred r.category_id (λ k c. c.id == k && c.organization_id == org) db.financial_categories)
  cost_center ← gets (λ db.
      referred r.cost_center_id (λ k c. c.id == k && c.organization_id == org) db.cost_centers)
  supplier ←
      gets (λ db.
        referred r.supplier_person_id (λ k p. p.id == k && p.organization_id == org) db.people)
  raise_if (is_dangling r.company_id company) Error.invalid_company
  raise_if (is_dangling r.development_id development) Error.invalid_development
  raise_if (of_other_company r.company_id development) Error.development_of_other_company
  raise_if (is_dangling r.bank_account_id bank_account) Error.invalid_bank_account
  raise_if (is_dangling r.category_id category) Error.invalid_category
  raise_if (is_revenue category) Error.not_an_expense
  raise_if (is_dangling r.cost_center_id cost_center) Error.invalid_cost_center
  raise_if (is_dangling r.supplier_person_id supplier) Error.invalid_supplier

abbrev pub new_payable : ℕ → ℕ → CreatePayableDto → PayableRow
new_payable id org dto = record {
  id = id;
  organization_id = org;
  company_id = dto.references.company_id;
  development_id = dto.references.development_id;
  bank_account_id = dto.references.bank_account_id;
  category_id = dto.references.category_id;
  cost_center_id = dto.references.cost_center_id;
  supplier_person_id = dto.references.supplier_person_id;
  sale_commission_id = none;
  investor_return_id = none;
  source_type = none;
  description = dto.description;
  due_date = dto.due_date;
  original_amount = dto.original_amount;
  paid_amount = 0;
  status = PayableStatus.pendente;
  paid_at = none;
  cancelled_at = none;
}

abbrev pub insert_payable : PayableRow → Database → Database
insert_payable p db = record db { payables = db.payables ++ p ∷ [] }

-- `create`; `id` is the identifier that the database gives the new row.
unfoldable pub create_payable : ℕ → Actor → CreatePayableDto → Action PayableRow
unfolding ensure_organization assert_references lock_payable
create_payable id actor dto = do
  ensure_organization actor.organization_id
  assert_references actor.organization_id dto.references
  transaction (
      modify_db (insert_payable (new_payable id actor.organization_id dto))
      >> record_one (entry actor AuditAction.payable_created EntityType.payable id))
  lock_payable id actor.organization_id

abbrev pub references_of : UpdatePayableDto → PayableReferences
references_of dto = record {
  company_id = or_else dto.company_id none;
  development_id = or_else dto.development_id none;
  bank_account_id = or_else dto.bank_account_id none;
  category_id = or_else dto.category_id none;
  cost_center_id = or_else dto.cost_center_id none;
  supplier_person_id = or_else dto.supplier_person_id none;
}

abbrev pub updated_status : ℕ → ℕ → PayableStatus
updated_status amount paid =
    if amount == paid
    then PayableStatus.pago
    else if ltb 0 paid
    then PayableStatus.parcial
    else PayableStatus.pendente

-- The data of the update; `existing` is the row as it was read before the transaction.
abbrev pub updated_payable : PayableRow → UpdatePayableDto → PayableRow → PayableRow
updated_payable existing dto p = record p {
  description = or_else dto.description p.description;
  due_date = or_else dto.due_date p.due_date;
  original_amount = or_else dto.original_amount p.original_amount;
  company_id = or_else dto.company_id p.company_id;
  development_id = or_else dto.development_id p.development_id;
  bank_account_id = or_else dto.bank_account_id p.bank_account_id;
  category_id = or_else dto.category_id p.category_id;
  cost_center_id = or_else dto.cost_center_id p.cost_center_id;
  supplier_person_id = or_else dto.supplier_person_id p.supplier_person_id;
  status =
      updated_status (or_else dto.original_amount existing.original_amount) existing.paid_amount;
}

-- What `update` reads and checks before its transaction.
unfoldable pub check_update : ℕ → Actor → UpdatePayableDto → Action PayableRow
unfolding lock_payable assert_references
check_update id actor dto = do
  existing ← lock_payable id actor.organization_id
  raise_if (is_some existing.source_type) Error.automatic_payable
  assert_references actor.organization_id (references_of dto)
  let amount = or_else dto.original_amount existing.original_amount
  raise_if (ltb amount existing.paid_amount) Error.value_below_paid
  raise_if
      (ltb 0 existing.paid_amount
        && is_some dto.original_amount
        && leb amount existing.paid_amount
        && not (amount == existing.original_amount))
      Error.value_not_above_paid
  pure existing

-- The transaction of `update`.
unfoldable pub write_update : ℕ → Actor → PayableRow → UpdatePayableDto → Action (Unit {0})
write_update id actor existing dto = transaction (do
  modify_db (set_payable id (updated_payable existing dto))
  check_rows (payables_hold id)
  record_one (entry actor AuditAction.payable_updated EntityType.payable id))

-- `update`
unfoldable pub update_payable : ℕ → Actor → UpdatePayableDto → Action PayableRow
unfolding check_update write_update lock_payable
update_payable id actor dto = do
  existing ← check_update id actor dto
  write_update id actor existing dto
  lock_payable id actor.organization_id

abbrev pub is_payable_cancelado : PayableStatus → Bool
is_payable_cancelado PayableStatus.cancelado = true
is_payable_cancelado _ = false

abbrev pub cancelled_payable : ℕ → PayableRow → PayableRow
cancelled_payable now p = record p { status = PayableStatus.cancelado; cancelled_at = some now }

unfoldable pub close_payable : ℕ → ℕ → Actor → Action (Unit {0})
close_payable now id actor = do
  modify_db (set_payable id (cancelled_payable now))
  record_one (entry actor AuditAction.payable_updated EntityType.payable id)

-- `cancel`
unfoldable pub cancel_payable : ℕ → ℕ → Actor → Action PayableRow
unfolding lock_payable close_payable
cancel_payable now id actor = do
  transaction (do
    payable ← lock_payable id actor.organization_id
    raise_if (is_some payable.source_type) Error.automatic_payable
    raise_if (not (payable.paid_amount == 0)) Error.payable_has_payments
    if is_payable_cancelado payable.status then pure tt else close_payable now id actor)
  lock_payable id actor.organization_id
