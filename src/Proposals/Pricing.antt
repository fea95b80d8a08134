-- ===== src/Proposals/Pricing.antt =====
-- The price of a proposal version: `validatePricing` and `conditionCreateData` of
-- src/proposals/proposals.service.ts. Amounts come in as integers, in cents, as `money` rounds them.
use harpia_api.Prelude.{
  ℕ, ◌+◌, Bool, false, ◌||◌, not, Option, none, some, List, [], ◌∷◌, if◌then◌else◌, Text,
}
use harpia_api.Prelude.Int.{ℤ, pos, pos_part, ◌+ℤ◌, ◌-ℤ◌, ltb_ℤ, eqb_ℤ}
use harpia_api.Dates.{UtcDate}
use harpia_api.Store.{
  PaymentConditionType, PaymentCondition, Action, Error, pure, raise_if, is_entrada, ◌>>◌,
}

-- ProposalPaymentConditionDto
pub record ConditionDto : Type 0 where
  pub type : PaymentConditionType
  pub amount : ℤ
  pub installments : Option ℕ
  pub first_due_date : Option UtcDate
  pub interval_months : Option ℕ
  pub description : Option Text

pub record Pricing : Type 0 where
  pub base_price : ℕ
  pub discount : ℕ
  pub final_price : ℕ
  pub down_payment : ℕ

abbrev pub is_negative : ℤ → Bool
is_negative a = ltb_ℤ a (pos 0)

unfoldable pub any_negative : List ConditionDto → Bool
any_negative [] = false
any_negative (c ∷ cs) = is_negative c.amount || any_negative cs

unfoldable pub total_of : List ConditionDto → ℤ
total_of [] = pos 0
total_of (c ∷ cs) = c.amount +ℤ total_of cs

unfoldable pub down_payment_of : List ConditionDto → ℤ
down_payment_of [] = pos 0
down_payment_of (c ∷ cs) = (if is_entrada c.type then c.amount else pos 0) +ℤ down_payment_of cs

-- The stored columns hold what the guards have left, which is not negative.
unfoldable pub validate_pricing : ℤ → ℤ → List ConditionDto → Action Pricing
unfolding any_negative total_of down_payment_of
validate_pricing base_price discount conditions = do
  raise_if (is_negative base_price || is_negative discount) Error.negative_value
  raise_if (ltb_ℤ base_price discount) Error.discount_above_price
  raise_if (any_negative conditions) Error.negative_condition
  raise_if (not (eqb_ℤ (total_of conditions) (base_price -ℤ discount))) Error.plan_total_mismatch
  pure (record {
    base_price = pos_part base_price;
    discount = pos_part discount;
    final_price = pos_part (base_price -ℤ discount);
    down_payment = pos_part (down_payment_of conditions);
  })

-- `description || null`
abbrev pub text_or_null : Option Text → Option Text
text_or_null none = none
text_or_null (some []) = none
text_or_null (some (c ∷ s)) = some (c ∷ s)

unfoldable pub condition_rows : ℕ → List ConditionDto → List PaymentCondition
condition_rows position [] = []
condition_rows position (c ∷ cs) =
    record {
      type = c.type;
      amount = pos_part c.amount;
      installments = c.installments;
      first_due_date = c.first_due_date;
      interval_months = c.interval_months;
      description = text_or_null c.description;
      position = position;
    }
    ∷ condition_rows (position + 1) cs

-- `conditionCreateData`
unfoldable pub condition_create_data : List ConditionDto → List PaymentCondition
unfolding condition_rows
condition_create_data conditions = condition_rows 0 conditions
