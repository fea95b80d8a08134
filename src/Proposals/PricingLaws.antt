-- ===== src/Proposals/PricingLaws.antt =====
-- The prices that `validatePricing` of src/proposals/proposals.service.ts lets through.
use Prim.{absurd}
use harpia_api.Prelude.{
  ℕ, ◌+◌, ◌≤◌, ◌≡◌, refl, Bool, true, false, ◌||◌, ◌&&◌, ◌⊎◌, not, List, [], ◌∷◌, arith, sum_by,
  Bool-cases, inl, inr, if◌then◌else◌,
}
use harpia_api.Prelude.Int.{ℤ, pos, negsuc, pos_part, neg_part, ◌+ℤ◌, ◌-ℤ◌, ltb_ℤ, eqb_ℤ, -ℤ_parts}
use harpia_api.Store.{PaymentCondition, Database, done, run, is_entrada, Error, thrown}
use harpia_api.Proposals.Pricing.{
  ConditionDto, Pricing, is_negative, any_negative, total_of, down_payment_of, validate_pricing,
  condition_rows, condition_create_data,
}

abbrev pub amounts : List PaymentCondition → ℕ
amounts = sum_by (λ c. c.amount)

record IsTotal (cs : List ConditionDto) (position : ℕ) : Type 0 where
  total : pos_part (total_of cs) ≡ amounts (condition_rows position cs)
  total_nonneg : neg_part (total_of cs) ≡ 0
  down : pos_part (down_payment_of cs) ≤ amounts (condition_rows position cs)
  down_nonneg : neg_part (down_payment_of cs) ≡ 0

+ℤ_nonneg :
    (a b : ℤ)
    → neg_part a ≡ 0
    → neg_part b ≡ 0
    → (pos_part (a +ℤ b) ≡ pos_part a + pos_part b) × (neg_part (a +ℤ b) ≡ 0)
unfolding ◌+ℤ◌
+ℤ_nonneg a b ha hb = ground arith

nonneg_part : (a : ℤ) → is_negative a ≡ false → neg_part a ≡ 0
nonneg_part a h = ground arith

entrada_part :
    (b : Bool) (a : ℤ)
    → neg_part a ≡ 0
    → (neg_part (if b then a else pos 0) ≡ 0) × (pos_part (if b then a else pos 0) ≤ pos_part a)
entrada_part true a h = (h, omega arith)
entrada_part false a h = (refl, omega arith)

IsTotal-of : (position : ℕ) (cs : List ConditionDto) → any_negative cs ≡ false → IsTotal cs position
unfolding any_negative total_of down_payment_of condition_rows
IsTotal-of position [] h = record {
  total = refl;
  total_nonneg = refl;
  down = omega arith;
  down_nonneg = refl;
}
IsTotal-of position (c ∷ cs) h =
    let rest = IsTotal-of (position + 1) cs (ground arith) in
    let nonneg = nonneg_part c.amount (ground arith) in
    let sum = +ℤ_nonneg c.amount (total_of cs) nonneg rest.total_nonneg in
    let part = entrada_part (is_entrada c.type) c.amount nonneg in
    let down = +ℤ_nonneg _ (down_payment_of cs) part.0 rest.down_nonneg in
    record {
      total = omega (arith, sum, rest.total);
      total_nonneg = sum.1;
      down = omega (arith, down, part, rest.down);
      down_nonneg = down.1;
    }

-- A stored price: the conditions make up the final price, which is the base price less the
-- discount, and the down payment is part of it.
pub record IsPriced (base discount : ℤ) (cs : List ConditionDto) (p : Pricing) : Type 0 where
  pub base_price : base ≡ pos p.base_price
  pub discount_given : discount ≡ pos p.discount
  pub final_price : p.final_price + p.discount ≡ p.base_price
  pub conditions : amounts (condition_create_data cs) ≡ p.final_price
  pub down_payment : p.down_payment ≤ p.final_price

-- What the guards ask for.
abbrev pub is_acceptable : ℤ → ℤ → List ConditionDto → Bool
is_acceptable base discount cs =
    not (is_negative base || is_negative discount)
    && not (ltb_ℤ base discount)
    && not (any_negative cs)
    && eqb_ℤ (total_of cs) (base -ℤ discount)

pos_of : (a : ℤ) → neg_part a ≡ 0 → a ≡ pos (pos_part a)
pos_of (pos n) h = refl
pos_of (negsuc n) h = absurd (omega (arith, h))

priced :
    (base discount : ℤ) (cs : List ConditionDto)
    → is_acceptable base discount cs ≡ true
    → IsPriced base discount cs (record {
      base_price = pos_part base;
      discount = pos_part discount;
      final_price = pos_part (base -ℤ discount);
      down_payment = pos_part (down_payment_of cs);
    })
unfolding condition_create_data
priced base discount cs h =
    let total = IsTotal-of 0 cs (ground arith) in
    record {
      base_price = pos_of base (ground arith);
      discount_given = pos_of discount (ground arith);
      final_price = ground (arith, -ℤ_parts base discount, total.total_nonneg);
      conditions = ground (arith, total.total, total.total_nonneg, -ℤ_parts base discount);
      down_payment =
          ground (arith, total.total, total.down, total.total_nonneg, -ℤ_parts base discount);
    }

-- `validatePricing` returns exactly for prices that are not negative, a discount within the base
-- price, and conditions that are not negative and sum up to the base price less the discount; the
-- result is then a price as `IsPriced` says. Otherwise it throws. It writes nothing.
pub validate_pricing_lem :
    (base discount : ℤ) (cs : List ConditionDto) (db : Database)
    → ((is_acceptable base discount cs ≡ true)
        × (p : Pricing) × (validate_pricing base discount cs db ≡ done p db)
        × IsPriced base discount cs p)
      ⊎ ((is_acceptable base discount cs ≡ false)
          × (e : Error) × (validate_pricing base discount cs db ≡ thrown e db))
unfolding validate_pricing run
validate_pricing_lem base discount cs db =
    elim (Bool-cases (is_negative base || is_negative discount)) [
      | inl a ↦ inr (rw a refl, Error.negative_value, rw a refl)
      | inr a ↦ elim (Bool-cases (ltb_ℤ base discount)) [
        | inl b ↦ inr (rw a (rw b refl), Error.discount_above_price, rw a (rw b refl))
        | inr b ↦ elim (Bool-cases (any_negative cs)) [
          | inl c ↦ inr (rw a (rw b (rw c refl)), Error.negative_condition, rw a (rw b (rw c refl)))
          | inr c ↦ elim (Bool-cases (eqb_ℤ (total_of cs) (base -ℤ discount))) [
            | inl d ↦ inl (
              rw a (rw b (rw c d)),
              _,
              rw a (rw b (rw c (rw d refl))),
              priced base discount cs (rw a (rw b (rw c d))),
            )
            | inr d ↦
                inr
                  (rw a (rw b (rw c d)), Error.plan_total_mismatch, rw a (rw b (rw c (rw d refl))))
          ]
        ]
      ]
    ]
