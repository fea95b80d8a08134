-- ===== src/Payables/Sources.antt =====
-- `syncSource` of src/finance/payables.service.ts and the rows that a payable comes from.
use mathlib.Core.Path.{subst}
use mathlib.Core.Option.{some-injective}
use harpia_api.Prelude.{
  sym, ℕ, ◌≡◌, refl, Option, none, some, List, map, arith, ◌==◌, is_some, Bool-cases, inl, inr,
  true, [], ◌∷◌, ap,
}
use harpia_api.Table.{find_first, modify, find_first-modify, find_first_holds}
use harpia_api.Store.{
  PayableStatus, PayableRow, ReturnRow, SaleRow, Database, Ensures, Ensures-get, Ensures-written,
  Ensures-then, Ensures-pure, Ensures-present_then, ReturnStatus, SaleCommission,
  SaleCommissionStatus,
}
use harpia_api.Payables.Payments.{
  has_commission, with_commission, synced_return, sync_return, sync_commission, sync_source,
  commission_status,
}

-- The returns and the sales once the source of a payable follows a status.
abbrev pub returns_after : Option ℕ → PayableStatus → ℕ → ℕ → List ReturnRow → List ReturnRow
returns_after none status date paid rs = rs
returns_after (some id) status date paid rs =
    modify (λ r. r.id == id) (synced_return status date paid) rs

abbrev pub sales_after : Option ℕ → PayableStatus → List SaleRow → List SaleRow
sales_after none status ss = ss
sales_after (some id) status ss =
    map (with_commission id (λ c. record c { status = commission_status status })) ss

-- The rows that the foreign keys of the payable name.
abbrev pub HasReturn : Option ℕ → List ReturnRow → Type 0
HasReturn none rs = Unit {0}
HasReturn (some id) rs = (r : ReturnRow) × (find_first (λ x. x.id == id) rs ≡ some r)

abbrev pub HasCommission : Option ℕ → List SaleRow → Type 0
HasCommission none ss = Unit {0}
HasCommission (some id) ss = (s : SaleRow) × (find_first (has_commission id) ss ≡ some s)

sync_return-succeeds :
    (id : Option ℕ) (status : PayableStatus) (date paid : ℕ) (db : Database)
    → HasReturn id db.returns
    → Ensures
        (λ _ d. d ≡ record db { returns = returns_after id status date paid db.returns })
        (λ _. ⊥)
        (sync_return id status date paid db)
unfolding sync_return
sync_return-succeeds none status date paid db h = Ensures-pure _ _ refl
sync_return-succeeds (some id) status date paid db (r, found) =
    Ensures-get _ _ _ (Ensures-present_then _ _ _ _ r found (Ensures-written _ _ refl))

sync_commission-succeeds :
    (id : Option ℕ) (status : PayableStatus) (db : Database)
    → HasCommission id db.sales
    → Ensures
        (λ _ d. d ≡ record db { sales = sales_after id status db.sales })
        (λ _. ⊥)
        (sync_commission id status db)
unfolding sync_commission
sync_commission-succeeds none status db h = Ensures-pure _ _ refl
sync_commission-succeeds (some id) status db (s, found) =
    Ensures-get _ _ _ (Ensures-present_then _ _ _ _ s found (Ensures-written _ _ refl))

pub sync_source-succeeds :
    (r : PayableRow) (status : PayableStatus) (date paid : ℕ) (db : Database)
    → HasReturn r.investor_return_id db.returns
    → HasCommission r.sale_commission_id db.sales
    → Ensures
        (λ _ d. d ≡ record db {
          returns = returns_after r.investor_return_id status date paid db.returns;
          sales = sales_after r.sale_commission_id status db.sales;
        })
        (λ _. ⊥)
        (sync_source r status date paid db)
unfolding sync_source
sync_source-succeeds r status date paid db returned commissioned =
    let synced = record db {
      returns = returns_after r.investor_return_id status date paid db.returns;
    } in
    Ensures-then (λ _ d. d ≡ synced) _ _ _
      (sync_return-succeeds r.investor_return_id status date paid db returned)
      (λ _ d same.
        subst
          (λ x.
            Ensures
              (λ _ d'.
                d' ≡ record synced { sales = sales_after r.sale_commission_id status db.sales })
              (λ _. ⊥) (sync_commission r.sale_commission_id status x))
          (sym same) (sync_commission-succeeds r.sale_commission_id status synced commissioned))

-- The return of an investor that a payable comes from is paid, with the day and the amount.
abbrev pub IsReturnPaid : Option ℕ → (date amount : ℕ) → List ReturnRow → Type 0
IsReturnPaid none date amount rs = Unit {0}
IsReturnPaid (some id) date amount rs =
    (r : ReturnRow) × (find_first (λ x. x.id == id) rs ≡ some r)
    × (r.status ≡ ReturnStatus.pago)
    × (r.realized_date ≡ some date)
    × (r.realized_amount ≡ some amount)

-- The commission of a sale that a payable comes from is paid.
abbrev pub IsCommissionPaid : Option ℕ → List SaleRow → Type 0
IsCommissionPaid none ss = Unit {0}
IsCommissionPaid (some id) ss =
    (s : SaleRow) × (c : SaleCommission) × (find_first (has_commission id) ss ≡ some s)
    × (find_first (λ x. x.id == id) s.commissions ≡ some c)
    × (c.status ≡ SaleCommissionStatus.paga)

pub returned-IsReturnPaid :
    (id : Option ℕ) (date amount : ℕ) (rs : List ReturnRow)
    → HasReturn id rs
    → IsReturnPaid id date amount (returns_after id PayableStatus.pago date amount rs)
returned-IsReturnPaid none date amount rs h = tt
returned-IsReturnPaid (some id) date amount rs (r, found) = (
  synced_return PayableStatus.pago date amount r,
  ground (
    arith,
    find_first_holds (λ x. x.id == id) rs r found,
    find_first-modify (λ x. x.id == id) (λ x. x.id == id)
        (synced_return PayableStatus.pago date amount) rs r (λ x. refl) found,
  ),
  refl,
  refl,
  refl,
)

module _ (id : ℕ) where
  abbrev paid_sale : SaleRow → SaleRow
  paid_sale = with_commission id (λ c. record c { status = SaleCommissionStatus.paga })

  paid_commission :
      (cs : List SaleCommission)
      → is_some (find_first (λ c. c.id == id) cs) ≡ true
      → (c : SaleCommission) × (find_first
            (λ c. c.id == id)
            (modify (λ c. c.id == id) (λ c. record c { status = SaleCommissionStatus.paga }) cs)
          ≡ some c)
        × (c.status ≡ SaleCommissionStatus.paga)
  paid_commission [] h = cc
  paid_commission (c ∷ cs) h = elim (Bool-cases (c.id == id)) [
    | inl e ↦ (record c { status = SaleCommissionStatus.paga }, rw e (rw e refl), refl)
    | inr e ↦
        let (c', found, paid) = paid_commission cs (rw e at h) in (c', rw e (rw e found), paid)
  ]

  kept_commission :
      (cs : List SaleCommission)
      → is_some (
          find_first
            (λ c. c.id == id)
            (modify (λ c. c.id == id) (λ c. record c { status = SaleCommissionStatus.paga }) cs))
        ≡ is_some (find_first (λ c. c.id == id) cs)
  kept_commission [] = refl
  kept_commission (c ∷ cs) = ground (arith, kept_commission cs)

  paid_sales :
      (ss : List SaleRow) (s : SaleRow)
      → find_first (has_commission id) ss ≡ some s
      → find_first (has_commission id) (map paid_sale ss) ≡ some (paid_sale s)
  paid_sales [] s found = cc
  paid_sales (x ∷ ss) s found = elim (Bool-cases (has_commission id x)) [
    | inl e ↦
        rw (kept_commission x.commissions)
          (rw e (ap (λ y. some (paid_sale y)) (some-injective _ _ (rw e at found))))
    | inr e ↦ rw (kept_commission x.commissions) (rw e (paid_sales ss s (rw e at found)))
  ]

pub commissioned-IsCommissionPaid :
    (id : Option ℕ) (ss : List SaleRow)
    → HasCommission id ss
    → IsCommissionPaid id (sales_after id PayableStatus.pago ss)
commissioned-IsCommissionPaid none ss h = tt
commissioned-IsCommissionPaid (some id) ss (s, found) =
    let (c, there, paid) =
      paid_commission id s.commissions (find_first_holds (has_commission id) ss s found) in
    (paid_sale id s, c, paid_sales id ss s found, there, paid)
