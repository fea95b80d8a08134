-- ===== src/Payables/Due.antt =====
-- `markCommissionDue` of src/finance/payables.service.ts and a property of the tables of the finance
-- services that a new payable keeps.
use mathlib.Core.Path.{subst}
use harpia_api.Prelude.{ℕ, ◌≡◌, refl, sym, Option, none, some, [], ◌∷◌, ◌++◌, Text}
use harpia_api.Store.{
  PayableStatus, PayableRow, Database, Actor, state_of, Ensures, state_of-Ensures, Ensures-pure,
  Ensures-get, Ensures-row, Ensures-guard, Ensures-write, Ensures-bind, Ensures-or_raise,
  Ensures-transaction, Ensures-record_one,
}
use harpia_api.Cash.Tables.{CashTables, cash_of}
use harpia_api.Payables.Setup.{expense_category, ensure_organization}
use harpia_api.Payables.Changes.{lock_payable}
use harpia_api.Payables.Commissions.{upsert_payable, make_due, mark_commission_due}

-- The defaults of an organization stand in other tables.
expense_category-Ensures :
    (org : ℕ) (name : Text) (db : Database)
    → Ensures (λ _ d. cash_of d ≡ cash_of db) (λ _. Unit {0}) (expense_category org name db)
unfolding expense_category ensure_organization
expense_category-Ensures org name db =
    Ensures-write _ _ _ (Ensures-get _ _ _ (Ensures-or_raise _ _ _ (λ c e. refl) tt))

-- The tables with a new payable.
abbrev pub with_payable : PayableRow → CashTables → CashTables
with_payable new c = record c { payables = c.payables ++ new ∷ [] }

-- A payable that nothing is paid of
abbrev pub IsUnpaid : ℕ → PayableRow → Type 0
IsUnpaid id new = (new.id ≡ id) × (new.paid_amount ≡ 0) × (new.status ≡ PayableStatus.pendente)

module _ (P : CashTables → Type 0) (db : Database) (id : ℕ) (valid : P (cash_of db))
    (grows : (new : PayableRow) → IsUnpaid id new → P (with_payable new (cash_of db))) where
  upsert_payable-Keeps :
      (existing : Option PayableRow) (new : PayableRow) (d : Database)
      → cash_of d ≡ cash_of db
      → IsUnpaid id new
      → Ensures (λ _ d'. P (cash_of d')) (λ _. Unit {0}) (upsert_payable existing new d)
  unfolding upsert_payable
  upsert_payable-Keeps (some p) new d same unpaid = Ensures-pure _ _ (subst P (sym same) valid)
  upsert_payable-Keeps none new d same unpaid =
      Ensures-write _ _ _
        (Ensures-pure _ _ (subst (λ c. P (with_payable new c)) (sym same) (grows new unpaid)))

  make_due-Keeps :
      (now commission_id : ℕ) (actor : Actor) (due_date : Option ℕ)
      → Ensures
          (λ _ d. P (cash_of d))
          (λ _. Unit {0})
          (make_due now id commission_id actor due_date db)
  unfolding make_due
  make_due-Keeps now commission_id actor due_date = Ensures-get _ _ _ (
      Ensures-row _ _ _ _
        (λ sale _.
          Ensures-row _ _ _ _
            (λ c _. Ensures-get _ _ _ (
              Ensures-guard _ _ _ _
                (λ _.
                  Ensures-bind (λ _ d. cash_of d ≡ cash_of db) _ _ _
                    (expense_category-Ensures actor.organization_id _ db)
                    (λ category d same. Ensures-write _ _ _ (
                      Ensures-get _ _ _ (
                        Ensures-bind (λ _ d'. P (cash_of d')) _ _ _
                          (upsert_payable-Keeps _ _ _ same (refl, refl, refl))
                          (λ a d' h. Ensures-record_one _ _ _ (Ensures-pure _ _ h))))))
                tt))
            tt)
        tt)

  pub mark_commission_due-Keeps :
      (now commission_id : ℕ) (actor : Actor) (due_date : Option ℕ)
      → P (cash_of (state_of (mark_commission_due now id commission_id actor due_date db)))
  unfolding mark_commission_due lock_payable
  mark_commission_due-Keeps now commission_id actor due_date =
      state_of-Ensures (λ d. P (cash_of d)) _
        (Ensures-bind (λ _ d. P (cash_of d)) _ _ _
          (Ensures-transaction _ _ (make_due-Keeps now commission_id actor due_date) valid)
          (λ a d h. Ensures-get _ _ _ (Ensures-or_raise _ _ _ (λ r e. h) h)))
