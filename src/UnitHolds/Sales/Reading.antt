-- ===== src/UnitHolds/Sales/Reading.antt =====
-- The checks of src/sales/sales.service.ts that only read, with what they leave.
use harpia_api.Prelude.{ℕ, List, [], ◌∷◌}
use harpia_api.Store.{
  PaymentCondition, Database, state_of, Ensures, state_of-Ensures, Ensures-get, Ensures-or_raise,
  Ensures-guard, Ensures-guarded, Ensures-pure, Outcome, ReceivableRow, PaymentRow,
}
use harpia_api.Receivables.Generated.{IsKept}
use harpia_api.Sales.Shapes.{
  SaleBuyerDto, CreateSaleCommissionDto, validate_buyer_shape, validate_commission_shape,
  assert_payment_plan,
}
use harpia_api.Sales.Tenancy.{validate_commission_tenancy}
use harpia_api.Sales.Conversion.{lock_sale}
use harpia_api.UnitHolds.Accounts.{IsBalanced, IsConsistent}

-- What only reads leaves any property of the database.
module _ (P : Database → Type 0) where
  pub assert_payment_plan-Ensures :
      (price : ℕ) (cs : List PaymentCondition) (db : Database)
      → P db
      → Ensures (λ _. P) (λ _. Unit {0}) (assert_payment_plan price cs db)
  unfolding assert_payment_plan
  assert_payment_plan-Ensures price cs db h =
      Ensures-guard _ _ _ _ (λ _. Ensures-guarded _ _ _ (λ _. h) tt) tt

  pub validate_commission_tenancy-Ensures :
      (first org : ℕ) (cs : List CreateSaleCommissionDto) (db : Database)
      → P db
      → Ensures (λ _. P) (λ _. Unit {0}) (validate_commission_tenancy first org cs db)
  unfolding validate_commission_tenancy
  validate_commission_tenancy-Ensures first org cs db h =
      Ensures-get _ _ _ (Ensures-get _ _ _ (Ensures-guard _ _ _ _ (λ _. Ensures-pure _ _ h) tt))

  pub lock_sale-Ensures :
      (id org : ℕ) (db : Database) → P db → Ensures (λ _. P) P (lock_sale id org db)
  unfolding lock_sale
  lock_sale-Ensures id org db h = Ensures-get _ _ _ (Ensures-or_raise _ _ _ (λ _ _. h) h)

-- A check of the request that throws.
module _ (P E : Database → Type 0) where
  pub validate_commission_shape-Ensures :
      (cs : List CreateSaleCommissionDto) (db : Database)
      → P db
      → E db
      → Ensures (λ _. P) E (validate_commission_shape cs db)
  unfolding validate_commission_shape
  validate_commission_shape-Ensures [] db h x = Ensures-pure _ _ h
  validate_commission_shape-Ensures (c ∷ cs) db h x =
      Ensures-guard _ _ _ _ (λ _. validate_commission_shape-Ensures cs db h x) x

  pub validate_buyer_shape-Ensures :
      (buyers : List SaleBuyerDto) (db : Database)
      → P db
      → E db
      → Ensures (λ _. P) E (validate_buyer_shape buyers db)
  unfolding validate_buyer_shape
  validate_buyer_shape-Ensures buyers db h x =
      Ensures-guard _ _ _ _
        (λ _.
          Ensures-guard _ _ _ _
            (λ _. Ensures-guard _ _ _ _ (λ _. Ensures-guarded _ _ _ (λ _. h) x) x) x)
        x

-- A request that keeps the tables balanced and a property of the account, whatever becomes of it.
pub both_kept :
    {R : Type 0} {A : List ReceivableRow → List PaymentRow → Type 0} (o : Outcome R) (db : Database)
    → IsConsistent db
    → A db.receivables db.payments
    → (IsKept IsBalanced A db → Ensures (λ _. IsKept IsBalanced A) (IsKept IsBalanced A) o)
    → IsConsistent (state_of o) × A (state_of o).receivables (state_of o).payments
both_kept {R} {A} o db valid account h =
    let kept =
      state_of-Ensures (IsKept IsBalanced A) o (h (record { others = valid; account = account })) in
    (kept.others, kept.account)
