-- ===== src/Sales/Shapes.antt =====
-- The buyers and commissions of a sale: `validateBuyerShape`, `validateCommissionShape` and
-- `assertPaymentPlan` of src/sales/sales.service.ts. Percentages are in hundredths.
use harpia_api.Prelude.{
  ℕ, Bool, ◌&&◌, ◌||◌, not, Option, List, [], ◌∷◌, map, Text, ltb, ◌==◌, is_some, or_else, length,
  distinct, sum_by,
}
use harpia_api.Table.{count_by}
use harpia_api.Store.{PaymentCondition, Action, Error, pure, raise_if, ◌>>◌}

-- SaleBuyerDto
pub record SaleBuyerDto : Type 0 where
  pub person_id : ℕ
  pub participation_percentage : Option ℕ
  pub is_primary : Bool

-- CreateSaleCommissionDto
pub record CreateSaleCommissionDto : Type 0 where
  pub person_id : Option ℕ
  pub user_id : Option ℕ
  pub percentage : Option ℕ
  pub amount : ℕ
  pub notes : Option Text

abbrev pub buyer_ids : List SaleBuyerDto → List ℕ
buyer_ids = map (λ (b : SaleBuyerDto). b.person_id)

abbrev pub with_percentage : List SaleBuyerDto → ℕ
with_percentage = count_by (λ b. is_some b.participation_percentage)

abbrev pub participation : List SaleBuyerDto → ℕ
participation = sum_by (λ b. or_else b.participation_percentage 0)

-- 100%
abbrev pub whole : ℕ
whole = 10000

unfoldable pub validate_buyer_shape : List SaleBuyerDto → Action (Unit {0})
validate_buyer_shape buyers = do
  raise_if (not (distinct (buyer_ids buyers) == length (buyer_ids buyers))) Error.repeated_buyer
  raise_if (not (count_by (λ b. b.is_primary) buyers == 1)) Error.not_one_primary_buyer
  raise_if (ltb 0 (with_percentage buyers) && not (with_percentage buyers == length buyers))
      Error.partial_participation
  raise_if (ltb 0 (with_percentage buyers) && not (participation buyers == whole))
      Error.participation_not_full

-- `Boolean(personId) === Boolean(userId)`
abbrev pub has_one_beneficiary : CreateSaleCommissionDto → Bool
has_one_beneficiary c =
    (is_some c.person_id && not (is_some c.user_id))
    || (not (is_some c.person_id) && is_some c.user_id)

unfoldable pub validate_commission_shape : List CreateSaleCommissionDto → Action (Unit {0})
validate_commission_shape [] = pure tt
validate_commission_shape (c ∷ cs) =
    raise_if (not (has_one_beneficiary c)) Error.invalid_beneficiary >> validate_commission_shape cs

unfoldable pub assert_payment_plan : ℕ → List PaymentCondition → Action (Unit {0})
assert_payment_plan final_price conditions = do
  raise_if (length conditions == 0) Error.no_payment_plan
  raise_if (not (sum_by (λ c. c.amount) conditions == final_price)) Error.plan_price_mismatch
