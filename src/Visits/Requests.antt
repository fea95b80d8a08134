-- ===== src/Visits/Requests.antt =====
-- `create` and `update` of src/crm/visits.service.ts, with `lockVisit`, `assertAssignedUser` and
-- `resolveLocation`.
use harpia_api.Prelude.{
  ℕ, Bool, true, false, ◌&&◌, not, Option, none, some, List, [], ◌∷◌, ◌++◌, Text, ◌==◌, or_else,
  is_some, if◌then◌else◌,
}
use harpia_api.Table.{find_first, modify}
use harpia_api.Store.{
  SalesVisitStatus, SalesVisitRow, OpportunityRow, Database, AuditAction, EntityType, Actor, Action,
  Error, pure, raise, or_raise, raise_if, gets, transaction, modify_db, record_one, ◌>>=◌, ◌>>◌,
}
use harpia_api.Reservations.Requests.{entry, differs}
use harpia_api.Receivables.Payments.{first_of}
use harpia_api.Proposals.Pricing.{text_or_null}
use harpia_api.Visits.Plan.{
  VisitField, UpdateSalesVisitDto, Planned, nullable, plan_sales_visit_update,
}

-- CreateSalesVisitDto; `scheduled_at` is the time that its text stands for.
pub record CreateSalesVisitDto : Type 0 where
  pub opportunity_id : ℕ
  pub assigned_user_id : Option ℕ
  pub development_id : Option ℕ
  pub unit_id : Option ℕ
  pub scheduled_at : ℕ
  pub duration_minutes : Option ℕ
  pub location : Option Text
  pub notes : Option Text

-- `assertAssignedUser`
unfoldable pub assert_assigned_user : Option ℕ → ℕ → Action (Unit {0})
assert_assigned_user none org = pure tt
assert_assigned_user (some id) org = do
  user ←
      gets (λ db. find_first (λ u. u.id == id && u.organization_id == org && u.is_active) db.users)
  raise_if (not (is_some user)) Error.invalid_assigned_user

pub record Location : Type 0 where
  pub development_id : Option ℕ
  pub unit_id : Option ℕ

-- `resolveLocation`
unfoldable pub resolve_location : Option ℕ → Option ℕ → ℕ → Action Location
resolve_location development_id (some unit_id) org = do
  unit ←
      or_raise
        (← gets (λ db. find_first (λ u. u.id == unit_id && u.organization_id == org) db.units))
        Error.invalid_unit
  raise_if (differs development_id unit.development_id) Error.unit_of_other_development
  pure (record { development_id = some unit.development_id; unit_id = some unit.id })
resolve_location (some id) none org = do
  development ←
      gets (λ db. find_first (λ d. d.id == id && d.organization_id == org) db.developments)
  raise_if (not (is_some development)) Error.invalid_development
  pure (record { development_id = some id; unit_id = none })
resolve_location none none org = pure (record { development_id = none; unit_id = none })

abbrev pub new_visit :
    ℕ → Actor → OpportunityRow → Option ℕ → Location → CreateSalesVisitDto → SalesVisitRow
new_visit id actor o assigned place dto = record {
  id = id;
  organization_id = actor.organization_id;
  opportunity_id = o.id;
  person_id = o.person_id;
  assigned_user_id = assigned;
  created_by_user_id = actor.id;
  development_id = place.development_id;
  unit_id = place.unit_id;
  scheduled_at = dto.scheduled_at;
  duration_minutes = or_else dto.duration_minutes 60;
  status = SalesVisitStatus.agendada;
  outcome = none;
  location = text_or_null dto.location;
  result = none;
  notes = text_or_null dto.notes;
  completed_at = none;
  cancelled_at = none;
  cancellation_reason = none;
}

abbrev pub insert_visit : SalesVisitRow → Database → Database
insert_visit v db = record db { sales_visits = db.sales_visits ++ v ∷ [] }

-- `create`; `id` is the identifier that the database gives the new row.
unfoldable pub create_visit : ℕ → Actor → CreateSalesVisitDto → Action SalesVisitRow
unfolding assert_assigned_user resolve_location
create_visit id actor dto = transaction (do
  o ←
      or_raise
        (← gets (λ db.
          find_first (λ o. o.id == dto.opportunity_id && o.organization_id == actor.organization_id)
            db.opportunities))
        Error.invalid_opportunity
  let assigned = first_of dto.assigned_user_id o.assigned_user_id
  assert_assigned_user assigned actor.organization_id
  place ←
      resolve_location (first_of dto.development_id o.development_id)
        (first_of dto.unit_id o.unit_id) actor.organization_id
  modify_db (insert_visit (new_visit id actor o assigned place dto))
  record_one (entry actor AuditAction.sales_visit_created EntityType.sales_visit id)
  pure (new_visit id actor o assigned place dto))

abbrev pub visit_key : ℕ → ℕ → SalesVisitRow → Bool
visit_key id org v = v.id == id && v.organization_id == org

-- `lockVisit`
unfoldable pub lock_visit : ℕ → ℕ → Action SalesVisitRow
lock_visit id org = do
  or_raise (← gets (λ db. find_first (visit_key id org) db.sales_visits)) Error.visit_not_found

abbrev pub is_assignment : VisitField → Bool
is_assignment VisitField.assigned_user_id = true
is_assignment _ = false

abbrev pub reassigns : List VisitField → Bool
reassigns [] = false
reassigns (f ∷ fs) = if is_assignment f then true else reassigns fs

-- `assertAssignedUser` where the plan changes the user
unfoldable pub assert_if : Bool → Option ℕ → ℕ → Action (Unit {0})
unfolding assert_assigned_user
assert_if true id org = assert_assigned_user id org
assert_if false id org = pure tt

abbrev pub set_visit : ℕ → SalesVisitRow → Database → Database
set_visit id new db = record db {
  sales_visits = modify (λ v. v.id == id) (λ v. new) db.sales_visits;
}

-- What follows the plan.
unfoldable pub carry_out :
    ℕ → Actor → UpdateSalesVisitDto → SalesVisitRow → Planned → Action SalesVisitRow
unfolding assert_if
carry_out id actor dto v (Planned.refused e) = raise e
carry_out id actor dto v Planned.unchanged = pure v
carry_out id actor dto v (Planned.change plan) = do
  assert_if (reassigns plan.changed_fields) (nullable dto.assigned_user_id) actor.organization_id
  modify_db (set_visit id plan.row)
  record_one (entry actor AuditAction.sales_visit_updated EntityType.sales_visit id)
  pure plan.row

-- `update`
unfoldable pub update_visit : ℕ → ℕ → Actor → UpdateSalesVisitDto → Action SalesVisitRow
unfolding lock_visit plan_sales_visit_update carry_out
update_visit now id actor dto = transaction (do
  current ← lock_visit id actor.organization_id
  carry_out id actor dto current (plan_sales_visit_update current dto now))
