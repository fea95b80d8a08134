-- ===== src/Adjustments/Apply.antt =====
-- `apply` and `calculate` of src/monetary-adjustment/monetary-adjustment.service.ts.
use harpia_api.Prelude.{
  ℕ, Bool, true, false, ◌&&◌, List, [], ◌∷◌, ◌++◌, ltb, leb, ◌==◌, is_some, if◌then◌else◌,
}
use harpia_api.Prelude.Int.{ℤ, sub_ℕ}
use harpia_api.Table.{find_first, find_many}
use harpia_api.Store.{
  MonetaryIndexValueRow, AdjustmentPolicyRow, ReceivableAdjustmentRow, ReceivableRow, Database,
  AuditAction, EntityType, Actor, Action, Error, or_raise, raise_if, gets, transaction, modify_db,
  record_one, pure, is_cancelado, ◌>>=◌, ◌>>◌, check_rows, receivables_hold,
}
use harpia_api.Reservations.Requests.{entry}
use harpia_api.Receivables.Payments.{receivable_key, set_receivable}

-- The decimal numbers of `Prisma.Decimal`, as the service uses them.
pub record Decimals : Type 1 where
  pub Decimal : Type 0
  -- `new Prisma.Decimal(1)`
  pub one : Decimal
  -- `new Prisma.Decimal(1).plus(percentage)`, for a percentage in units of 10^-4
  pub one_plus : ℤ → Decimal
  pub times : Decimal → Decimal → Decimal
  -- `amount.times(factor).toDecimalPlaces(2)`, for an amount in cents
  pub scaled : ℕ → Decimal → ℕ

-- `orderBy: { competence: 'asc' }`
abbrev pub insert_value :
    MonetaryIndexValueRow → List MonetaryIndexValueRow → List MonetaryIndexValueRow
insert_value v [] = v ∷ []
insert_value v (w ∷ ws) =
    let rest = insert_value v ws in if ltb w.competence v.competence then w ∷ rest else v ∷ w ∷ ws

abbrev pub by_competence : List MonetaryIndexValueRow → List MonetaryIndexValueRow
by_competence [] = []
by_competence (v ∷ vs) = insert_value v (by_competence vs)

abbrev pub max : ℕ → ℕ → ℕ
max a b = if ltb a b then b else a

abbrev pub is_index_value : ℕ → AdjustmentPolicyRow → ℕ → ℕ → MonetaryIndexValueRow → Bool
is_index_value org policy start end v =
    v.organization_id == org
    && v.monetary_index_id == policy.monetary_index_id
    && leb (max start policy.base_date) v.competence
    && leb v.competence end

abbrev pub is_active_policy : ℕ → ℕ → AdjustmentPolicyRow → Bool
is_active_policy org receivable_id p =
    p.receivable_id == receivable_id && p.organization_id == org && p.active

-- The part of the calculation that `apply` reads.
pub record Calculation : Type 0 where
  pub previous_amount : ℕ
  pub adjusted_amount : ℕ
  pub paid_amount : ℕ

abbrev pub is_applied : ℕ → ℕ → ℕ → ℕ → ReceivableAdjustmentRow → Bool
is_applied org receivable_id start end a =
    a.organization_id == org
    && a.receivable_id == receivable_id
    && a.start_competence == start
    && a.end_competence == end

abbrev pub new_adjustment : ℕ → ℕ → Actor → ℕ → ℕ → ℕ → Calculation → ReceivableAdjustmentRow
new_adjustment now id actor receivable_id start end c = record {
  id = id;
  organization_id = actor.organization_id;
  receivable_id = receivable_id;
  previous_amount = c.previous_amount;
  adjusted_amount = c.adjusted_amount;
  difference = sub_ℕ c.adjusted_amount c.previous_amount;
  start_competence = start;
  end_competence = end;
  applied_at = now;
  applied_by_id = actor.id;
}

abbrev pub insert_adjustment : ReceivableAdjustmentRow → Database → Database
insert_adjustment a db = record db { adjustments = db.adjustments ++ a ∷ [] }

abbrev pub adjusted : ℕ → ReceivableRow → ReceivableRow
adjusted amount r = record r { adjusted_amount = amount }

module _ (decimals : Decimals) where
  open decimals use {Decimal, one, one_plus, times, scaled}

  abbrev pub factor_from : Decimal → List MonetaryIndexValueRow → Decimal
  factor_from factor [] = factor
  factor_from factor (v ∷ vs) = factor_from (times factor (one_plus v.percentage)) vs

  -- `calculate`; a competence is the time of the first day of its month.
  unfoldable pub calculate : ℕ → ℕ → ℕ → ℕ → Action Calculation
  calculate receivable_id org start end = do
    raise_if (ltb end start) Error.invalid_period
    receivable ←
        or_raise (← gets (λ db. find_first (receivable_key receivable_id org) db.receivables))
          Error.receivable_not_found
    raise_if (is_cancelado receivable.status) Error.receivable_cancelled
    policy ←
        or_raise
          (← gets (λ db. find_first (is_active_policy org receivable_id) db.adjustment_policies))
          Error.no_active_policy
    values ←
        gets (λ db. by_competence (find_many (is_index_value org policy start end) db.index_values))
    raise_if (elim values [ [] ↦ true | v ∷ vs ↦ false ]) Error.no_index_values
    pure (record {
      previous_amount = receivable.adjusted_amount;
      adjusted_amount = scaled receivable.adjusted_amount (factor_from one values);
      paid_amount = receivable.paid_amount;
    })

  -- `apply`
  unfoldable pub apply_adjustment : ℕ → ℕ → ℕ → Actor → ℕ → ℕ → Action ReceivableAdjustmentRow
  unfolding calculate
  apply_adjustment now id receivable_id actor start end = transaction (do
    existing ←
        gets (λ db.
          find_first (is_applied actor.organization_id receivable_id start end) db.adjustments)
    raise_if (is_some existing) Error.period_already_applied
    c ← calculate receivable_id actor.organization_id start end
    raise_if (ltb c.adjusted_amount c.paid_amount) Error.adjusted_below_paid
    modify_db (set_receivable receivable_id (adjusted c.adjusted_amount))
    check_rows (receivables_hold receivable_id)
    let row = new_adjustment now id actor receivable_id start end c
    modify_db (insert_adjustment row)
    record_one
        (entry actor AuditAction.receivable_adjustment_applied EntityType.receivable_adjustment id)
    pure row)
