-- ===== src/Store/Monad.antt =====
-- Requests: a computation that reads and writes the database and may throw. `$transaction` undoes
-- the writes of a callback that throws; writes outside one stay.
use harpia_api.Prelude.{
  Bool, true, false, Option, none, some, List, ◌++◌, ◌∷◌, [], if◌then◌else◌, not,
}
use harpia_api.Store.Tables.{Database, AuditEntry}

-- The exceptions that the modelled services throw, by what they report.
pub data Error : Type 0 where
  -- NotFoundException
  unit_not_found reservation_not_found proposal_not_found opportunity_not_found : Error
  receivable_not_found payment_not_found sale_not_found visit_not_found : Error
  -- BadRequestException
  expiration_in_past invalid_person invalid_opportunity opportunity_of_other_person : Error
  unit_mismatch validity_in_past reservation_mismatch negative_value negative_condition
        discount_above_price :
      Error
  plan_total_mismatch no_active_price lost_reason_required payment_in_future : Error
  payment_above_balance invalid_bank_account repeated_buyer not_one_primary_buyer : Error
  partial_participation participation_not_full invalid_beneficiary invalid_buyer : Error
  primary_buyer_mismatch : Error
  -- ConflictException
  unit_not_available opportunity_closed unit_already_reserved reservation_not_active : Error
  unit_not_reserved proposal_not_editable no_current_version version_missing : Error
  proposal_not_sendable proposal_not_rejectable proposal_not_acceptable proposal_expired : Error
  opportunity_lost opportunity_mismatch no_won_stage receivable_cancelled receivable_paid : Error
  payment_already_reversed inconsistent_payments receivable_has_payments : Error
  invalid_installments amount_below_installments proposal_not_accepted : Error
  proposal_already_converted no_source_reservation reservation_not_convertible : Error
  unit_already_sold no_payment_plan plan_price_mismatch development_unavailable : Error
  sale_already_registered sale_closed sale_has_receipts sale_has_paid_commission : Error
  sale_number_in_use visit_closed : Error
  -- BadRequestException
  nothing_to_update invalid_schedule invalid_visit_change cancellation_reason_required : Error
  invalid_assigned_user invalid_unit unit_of_other_development invalid_development : Error
  -- NotFoundException
  payable_not_found commission_not_found category_missing cost_center_missing : Error
  entry_not_found transaction_not_found : Error
  -- BadRequestException
  value_below_paid value_not_above_paid invalid_company development_of_other_company : Error
  invalid_category not_an_expense invalid_cost_center invalid_supplier : Error
  transaction_mismatch invalid_period no_index_values : Error
  -- ConflictException
  payable_cancelled payable_paid automatic_payable payable_has_payments : Error
  commission_closed entry_not_pending transaction_matched entry_changed : Error
  period_already_applied adjusted_below_paid no_active_policy : Error
  -- PrismaClientKnownRequestError P2002
  unique_violation : Error
  -- PrismaClientKnownRequestError P2025
  record_not_found : Error
  -- PrismaClientUnknownRequestError, a CHECK constraint
  check_violation : Error

-- How a request ends: with a value or an exception, and the database that it leaves.
pub data Outcome (A : Type 0) : Type 0 where
  done : A → Database → Outcome A
  thrown : Error → Database → Outcome A

abbrev pub Action : Type 0 → Type 0
Action A = Database → Outcome A

abbrev pub state_of : {A : Type 0} → Outcome A → Database
state_of (done a db) = db
state_of (thrown e db) = db

abbrev is_unique_violation : Error → Bool
is_unique_violation unique_violation = true
is_unique_violation _ = false

module _ {A : Type 0} where
  unfoldable pub pure : A → Action A
  pure a db = done a db

  unfoldable pub raise : Error → Action A
  raise e db = thrown e db

  unfoldable pub gets : (Database → A) → Action A
  gets f db = done (f db) db

  -- `if (!row) throw …`
  unfoldable pub or_raise : Option A → Error → Action A
  or_raise none e db = thrown e db
  or_raise (some a) e db = done a db

  abbrev pub rolled_back : Database → Outcome A → Outcome A
  rolled_back before (done a after) = done a after
  rolled_back before (thrown e after) = thrown e before

  -- `this.prisma.$transaction(async (tx) => { … })`
  unfoldable pub transaction : Action A → Action A
  transaction m db = rolled_back db (m db)

  abbrev pub translated : Error → Outcome A → Outcome A
  translated e (done a db) = done a db
  translated e (thrown x db) = thrown (if is_unique_violation x then e else x) db

  -- `catch (error)`: a P2002 is reported as the conflict `e`, any other error is thrown again.
  unfoldable pub on_unique_violation : Error → Action A → Action A
  on_unique_violation e m db = translated e (m db)

infixl 5 ◌>>=◌ ◌>>◌
unfoldable pub ◌>>=◌ : {A B : Type 0} → Action A → (A → Action B) → Action B
◌>>=◌ m f db = elim (m db) [ done a db' ↦ f a db' | thrown e db' ↦ thrown e db' ]

unfoldable pub ◌>>◌ : {A B : Type 0} → Action A → Action B → Action B
◌>>◌ m k db = elim (m db) [ done a db' ↦ k db' | thrown e db' ↦ thrown e db' ]

-- `if (condition) throw …`
unfoldable pub raise_if : Bool → Error → Action (Unit {0})
raise_if true e db = thrown e db
raise_if false e db = done tt db

-- A write to the tables.
unfoldable pub modify_db : (Database → Database) → Action (Unit {0})
modify_db f db = done tt (f db)

-- A CHECK constraint on the rows that the last write left.
unfoldable pub check_rows : (Database → Bool) → Action (Unit {0})
unfolding raise_if
check_rows holds db = raise_if (not (holds db)) check_violation db

-- `AuditService.recordMany`: the entries are appended in order.
unfoldable pub record_many : List AuditEntry → Action (Unit {0})
record_many entries db = done tt (record db { audit_logs = db.audit_logs ++ entries })

-- `AuditService.record`
unfoldable pub record_one : AuditEntry → Action (Unit {0})
record_one entry db = done tt (record db { audit_logs = db.audit_logs ++ entry ∷ [] })

-- Everything that a run of a request computes with.
unfoldable pub run : {A : Type 0} → Action A → Database → Outcome A
unfolding pure raise gets or_raise transaction on_unique_violation ◌>>=◌ ◌>>◌ raise_if modify_db
    check_rows record_many record_one
run m db = m db
