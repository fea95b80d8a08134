-- ===== src/Sales/Tenancy.antt =====
-- The people of a sale belong to the tenant: `validateBuyerTenancy` and `validateCommissionTenancy`
-- of src/sales/sales.service.ts.
use harpia_api.Prelude.{
  ℕ, ◌+◌, Bool, false, ◌&&◌, ◌||◌, not, Option, none, some, List, [], ◌∷◌, ◌++◌, map, ◌==◌, length,
  distinct, elem,
}
use harpia_api.Table.{find_first, find_many}
use harpia_api.Store.{
  PersonRoleRow, PersonRoleType, SaleBuyer, SaleCommission, SaleCommissionStatus, Database, Action,
  Error, pure, raise_if, gets, modify_db, is_cliente, ◌>>=◌, ◌>>◌,
}
use harpia_api.Proposals.Pricing.{text_or_null}
use harpia_api.Sales.Shapes.{SaleBuyerDto, CreateSaleCommissionDto, buyer_ids}

abbrev pub primary_of : List SaleBuyerDto → Option SaleBuyerDto
primary_of = find_first (λ b. b.is_primary)

abbrev pub role_key : ℕ → PersonRoleRow → Bool
role_key person_id r = r.person_id == person_id && is_cliente r.role

abbrev pub with_role : ℕ → ℕ → Database → Database
with_role org person_id db = record db {
  person_roles =
      db.person_roles
      ++ record { organization_id = org; person_id = person_id; role = PersonRoleType.cliente }
        ∷ [];
}

-- `tx.personRole.upsert` with nothing to update
abbrev pub upsert_role : ℕ → ℕ → Database → Database
upsert_role org person_id db = elim (find_first (role_key person_id) db.person_roles) [
  | some r ↦ db
  | none ↦ with_role org person_id db
]

unfoldable pub upsert_roles : ℕ → List ℕ → Action (Unit {0})
upsert_roles org [] = pure tt
upsert_roles org (id ∷ ids) = modify_db (upsert_role org id) >> upsert_roles org ids

abbrev pub buyer_of : SaleBuyerDto → SaleBuyer
buyer_of b = record {
  person_id = b.person_id;
  participation_percentage = b.participation_percentage;
  is_primary = b.is_primary;
}

-- The client of the proposal has to be the primary buyer; `validateBuyerShape` has made sure that
-- there is one.
abbrev pub is_primary_buyer : ℕ → List SaleBuyerDto → Bool
is_primary_buyer person_id buyers = elim (primary_of buyers) [
  | none ↦ false
  | some b ↦ b.person_id == person_id
]

unfoldable pub validate_buyer_tenancy : ℕ → ℕ → List SaleBuyerDto → Action (List SaleBuyer)
unfolding upsert_roles
validate_buyer_tenancy org proposal_person_id buyers = do
  people ←
      gets
        (λ db. find_many (λ p. p.organization_id == org && elem p.id (buyer_ids buyers)) db.people)
  raise_if (not (length people == length buyers)) Error.invalid_buyer
  raise_if (not (is_primary_buyer proposal_person_id buyers)) Error.primary_buyer_mismatch
  upsert_roles org (buyer_ids buyers)
  pure (map buyer_of buyers)

abbrev pub present : List (Option ℕ) → List ℕ
present [] = []
present (none ∷ xs) = present xs
present (some a ∷ xs) = a ∷ present xs

abbrev pub commission_people : List CreateSaleCommissionDto → List ℕ
commission_people cs = present (map (λ (c : CreateSaleCommissionDto). c.person_id) cs)

abbrev pub commission_users : List CreateSaleCommissionDto → List ℕ
commission_users cs = present (map (λ (c : CreateSaleCommissionDto). c.user_id) cs)

-- The commissions with the identifiers from `id` on that the database gives them.
pub commissions_from : ℕ → List CreateSaleCommissionDto → List SaleCommission
commissions_from id [] = []
commissions_from id (c ∷ cs) =
    record {
      id = id;
      person_id = c.person_id;
      user_id = c.user_id;
      percentage = c.percentage;
      amount = c.amount;
      status = SaleCommissionStatus.prevista;
      notes = text_or_null c.notes;
    }
    ∷ commissions_from (id + 1) cs

unfoldable pub validate_commission_tenancy :
    ℕ → ℕ → List CreateSaleCommissionDto → Action (List SaleCommission)
unfolding commissions_from
validate_commission_tenancy first_id org commissions = do
  people ← gets (λ db.
      find_many (λ p. p.organization_id == org && elem p.id (commission_people commissions))
        db.people)
  users ← gets (λ db.
      find_many (λ u. u.organization_id == org && elem u.id (commission_users commissions))
        db.users)
  raise_if
      (not (length people == distinct (commission_people commissions))
        || not (length users == distinct (commission_users commissions)))
      Error.invalid_beneficiary
  pure (commissions_from first_id commissions)
