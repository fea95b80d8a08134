-- ===== src/Adjustments/Account.antt =====
-- `apply` of src/monetary-adjustment/monetary-adjustment.service.ts and the receivables account.
use mathlib.Core.Path.{subst}
use mathlib.Core.Option.{some-injective}
use harpia_api.Prelude.{
  ℕ, ◌≤◌, ◌≡◌, refl, sym, ◌∙◌, ◌↔◌, some, List, arith, ◌==◌, true, ==_iff, all_by, [], ◌∷◌,
}
use harpia_api.Table.{
  find_first, find_first_holds, find_first-All, find_first-modify, modify, find_many,
}
use harpia_api.Store.{
  ReceivableRow, PaymentRow, ReceivableAdjustmentRow, Database, Actor, done, Ensures, Ensures-pure,
  Ensures-get, Ensures-row, Ensures-guard, Ensures-write, Ensures-bind, Ensures-transaction,
  Ensures-record_one, Ensures-done, Ensures-check, is_receivable_allowed, receivable_state,
  ReceivableStatus,
}
use harpia_api.Ledger.{HasStatus, IsSettled}
use harpia_api.Ledger.Updates.{restate-IsAccount}
use harpia_api.Receivables.Payments.{receivable_key}
use harpia_api.Receivables.Ledger.{debt_status, receivable_debts, IsLedger, IsReconciled}
use harpia_api.Adjustments.Apply.{Decimals, adjusted, calculate, apply_adjustment}

-- What an adjustment of the receivable `r` writes to the account.
abbrev IsAdjusted : ℕ → ReceivableRow → Database → ReceivableAdjustmentRow → Database → Type 0
IsAdjusted id r db a d =
    (d.receivables ≡ modify (λ x. x.id == id) (adjusted a.adjusted_amount) db.receivables)
    × (d.payments ≡ db.payments)
    × (r.paid_amount ≤ a.adjusted_amount)
    × (a.previous_amount ≡ r.adjusted_amount)
    × (is_receivable_allowed (adjusted a.adjusted_amount r) ≡ true)

-- The row that was found is among the ones that the constraint is tested on.
allowed_row :
    (rs : List ReceivableRow) (id org amount : ℕ) (r : ReceivableRow)
    → find_first (receivable_key id org) rs ≡ some r
    → all_by is_receivable_allowed
        (find_many (λ x. x.id == id) (modify (λ x. x.id == id) (adjusted amount) rs))
      ≡ true
    → is_receivable_allowed (adjusted amount r) ≡ true
allowed_row [] id org amount r found held = cc
allowed_row (x ∷ rs) id org amount r found held = ground (arith, allowed_row rs id org amount r)

-- The status that the constraint allows.
allowed_status :
    (r : ReceivableRow) (amount : ℕ)
    → is_receivable_allowed (adjusted amount r) ≡ true
    → HasStatus (debt_status r.status) r.paid_amount amount
allowed_status r amount h = go r.status (ground (arith, h))
  where
    go :
        (s : ReceivableStatus)
        → receivable_state s r.paid_amount amount r.paid_at r.cancelled_at ≡ true
        → HasStatus (debt_status s) r.paid_amount amount
    go ReceivableStatus.pendente is = ground arith
    go ReceivableStatus.parcial is = (ground arith, ground arith)
    go ReceivableStatus.pago is = ground arith
    go ReceivableStatus.cancelado is = ground arith

module _ (decimals : Decimals) (receivable_id start end : ℕ) (db : Database) where
  calculate-Ensures :
      (org : ℕ)
      → Ensures
          (λ c d.
            (r : ReceivableRow) × (d ≡ db)
            × (find_first (receivable_key receivable_id org) db.receivables ≡ some r)
            × (c.paid_amount ≡ r.paid_amount)
            × (c.previous_amount ≡ r.adjusted_amount))
          (λ d. Unit {0})
          (calculate decimals receivable_id org start end db)
  unfolding calculate
  calculate-Ensures org =
      Ensures-guard _ _ _ _
        (λ _. Ensures-get _ _ _ (
          Ensures-row _ _ _ _
            (λ r found.
              Ensures-guard _ _ _ _
                (λ _. Ensures-get _ _ _ (
                  Ensures-row _ _ _ _
                    (λ policy _. Ensures-get _ _ _ (
                      Ensures-guard _ _ _ _ (λ _. Ensures-pure _ _ (r, refl, found, refl, refl))
                        tt))
                    tt))
                tt)
            tt))
        tt

  apply-Ensures :
      (now id : ℕ) (actor : Actor)
      → Ensures
          (λ a d.
            (r : ReceivableRow) × (find_first
                (receivable_key receivable_id actor.organization_id)
                db.receivables
              ≡ some r)
            × IsAdjusted receivable_id r db a d)
          (λ d. Unit {0})
          (apply_adjustment decimals now id receivable_id actor start end db)
  unfolding apply_adjustment
  apply-Ensures now id actor =
      Ensures-transaction _ _
        (Ensures-get _ _ _ (
          Ensures-guard _ _ _ _
            (λ _.
              Ensures-bind _ _ _ _ (calculate-Ensures actor.organization_id)
                (λ c d (r, same, found, paid, previous). rw same (
                  Ensures-guard _ _ _ _
                    (λ enough. Ensures-write _ _ _ (
                      Ensures-check _ _ _
                        (λ held. Ensures-write _ _ _ (
                          Ensures-record_one _ _ _ (
                            Ensures-pure _ _ (
                              r,
                              found,
                              (
                                refl,
                                refl,
                                ground arith,
                                previous,
                                allowed_row db.receivables receivable_id actor.organization_id
                                    c.adjusted_amount r found held,
                              ),
                            ))))
                        tt))
                    tt)))
            tt))
        tt

  adjusted_iff :
      (org amount : ℕ) (r : ReceivableRow) (ps : List PaymentRow)
      → find_first (receivable_key receivable_id org) db.receivables ≡ some r
      → r.paid_amount ≤ amount
      → IsLedger db.receivables ps
      → IsLedger (modify (λ x. x.id == receivable_id) (adjusted amount) db.receivables) ps
        ↔ HasStatus (debt_status r.status) r.paid_amount amount
  adjusted_iff org amount r ps found enough valid = (there, back)
    where
      own : (r.id == receivable_id) ≡ true
      own =
          ground (arith, find_first_holds (receivable_key receivable_id org) db.receivables r found)

      there :
          IsLedger (modify (λ x. x.id == receivable_id) (adjusted amount) db.receivables) ps
          → HasStatus (debt_status r.status) r.paid_amount amount
      there after =
          (find_first-All (IsSettled receivable_debts ps) (receivable_key receivable_id org)
            (modify (λ x. x.id == receivable_id) (adjusted amount) db.receivables)
            (adjusted amount r) after.settled
            (find_first-modify (receivable_key receivable_id org) (λ x. x.id == receivable_id)
                (adjusted amount) db.receivables r (λ x. refl) found
              ∙ rw own refl)).status

      back :
          HasStatus (debt_status r.status) r.paid_amount amount
          → IsLedger (modify (λ x. x.id == receivable_id) (adjusted amount) db.receivables) ps
      back status =
          subst (λ k. IsLedger (modify (λ x. x.id == k) (adjusted amount) db.receivables) ps)
            ((==_iff r.id receivable_id).0 own)
            (restate-IsAccount receivable_debts (receivable_key receivable_id org) (adjusted amount)
              db.receivables ps ps r valid found (λ x. refl) (λ k ne. refl) valid.payment_ids
              valid.positive
              (record {
                paid =
                    (find_first-All (IsSettled receivable_debts ps)
                      (receivable_key receivable_id org) db.receivables r valid.settled found).paid;
                within = enough;
                status = status;
              }))

-- An adjustment that is applied leaves receivables in agreement with payments: the receivable has the
-- amount that the adjustment records, in place of the one that it records as the previous one, and its
-- status, which `apply` does not change, still fits.
pub apply_adjustment-IsReconciled :
    (decimals : Decimals) (now id receivable_id start end : ℕ) (actor : Actor) (db d : Database)
    (a : ReceivableAdjustmentRow) (r : ReceivableRow)
    → apply_adjustment decimals now id receivable_id actor start end db ≡ done a d
    → find_first (receivable_key receivable_id actor.organization_id) db.receivables ≡ some r
    → IsReconciled db
    → IsReconciled d
      × (find_first (receivable_key receivable_id actor.organization_id) d.receivables
          ≡ some (record r { adjusted_amount = a.adjusted_amount }))
      × (a.previous_amount ≡ r.adjusted_amount)
      × HasStatus (debt_status r.status) r.paid_amount a.adjusted_amount
apply_adjustment-IsReconciled decimals now id receivable_id start end actor db d a r is found
      valid =
    let (r', there, (rows, same, enough, previous, allowed)) =
      Ensures-done _ _ _ is (apply-Ensures decimals receivable_id start end db now id actor) in
    let e : r' ≡ r = some-injective _ _ (sym there ∙ found) in
    let status : HasStatus (debt_status r.status) r.paid_amount a.adjusted_amount =
      allowed_status r a.adjusted_amount (rw (← e) allowed) in
    let own : (r.id == receivable_id) ≡ true = ground (
      arith,
      find_first_holds (receivable_key receivable_id actor.organization_id) db.receivables r found,
    ) in
    (
      rw rows (
          rw same (
            (adjusted_iff decimals receivable_id start end db actor.organization_id
                a.adjusted_amount r db.payments found (rw (← e) enough) valid).1
              status)),
      rw rows (
          find_first-modify (receivable_key receivable_id actor.organization_id)
            (λ x. x.id == receivable_id) (adjusted a.adjusted_amount) db.receivables r (λ x. refl)
            found
          ∙ rw own refl),
      rw (← e) previous,
      status,
    )
