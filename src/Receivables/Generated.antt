-- ===== src/Receivables/Generated.antt =====
-- What `generateForSale` of src/receivables/receivables.service.ts adds to the receivables account,
-- and the closing of the receivables of a sale.
use harpia_api.Prelude.{ℕ, ◌+◌, ◌≡◌, refl, Bool, true, false, List, [], ◌∷◌, ◌++◌, arith}
use harpia_api.Dates.{UtcDate}
use harpia_api.Table.Keys.{next_id, count_by-next_id}
use harpia_api.Store.{
  ReceivableStatus, ReceivableRow, PaymentRow, UnitRow, ReservationRow, ProposalRow, SaleRow,
  Database, Action, Ensures, Ensures-get, Ensures-write, Ensures-pure, Ensures-bind, Ensures-then,
  Ensures-guard, Ensures-recorded_many,
}
use harpia_api.Receivables.Split.{split_amount}
use harpia_api.Receivables.Generation.{
  ReceivableSaleSource, ReceivablePlanSource, new_receivable, insert_receivable, create_instalments,
  create_plans, record_created, generate_for_sale, count_of, first_due_date, create_unless,
}
use harpia_api.Ledger.Updates.{insert-IsAccount}
use harpia_api.Receivables.Ledger.{receivable_debts, IsLedger}

-- A property of the account that a new receivable with nothing paid keeps.
abbrev pub Grows : (List ReceivableRow → List PaymentRow → Type 0) → Type 0
Grows A =
    (rs : List ReceivableRow) (ps : List PaymentRow) (row : ℕ → ReceivableRow)
    → ((id : ℕ) → (row id).id ≡ id)
    → ((id : ℕ) → (row id).paid_amount ≡ 0)
    → ((id : ℕ) → (row id).status ≡ ReceivableStatus.pendente)
    → A rs ps
    → A (rs ++ row (next_id (λ r. r.id) rs) ∷ []) ps

pub insert-IsLedger : Grows IsLedger
insert-IsLedger rs ps row named unpaid pending valid =
    let id = next_id (λ (r : ReceivableRow). r.id) rs in
    let new = row id in
    insert-IsAccount receivable_debts rs ps new
      (rw (named id) (count_by-next_id (λ r. r.id) rs id (omega arith))) (unpaid id)
      (rw (pending id) refl) valid

-- What every step of the generation keeps: whatever holds of four other tables, and of the account.
pub record IsKept
    (P : List UnitRow → List ReservationRow → List ProposalRow → List SaleRow → Type 0)
    (A : List ReceivableRow → List PaymentRow → Type 0) (db : Database) : Type 0 where
  pub others : P db.units db.reservations db.proposals db.sales
  pub account : A db.receivables db.payments

module _ (P : List UnitRow → List ReservationRow → List ProposalRow → List SaleRow → Type 0)
    (A : List ReceivableRow → List PaymentRow → Type 0) (grows : Grows A) where
  Ensures-insert_receivable :
      (sale : ReceivableSaleSource) (plan : ReceivablePlanSource) (count : ℕ) (due : UtcDate)
      (index amount : ℕ) (db : Database)
      → IsKept P A db
      → Ensures
          (λ _. IsKept P A)
          (λ _. Unit {0})
          (insert_receivable (new_receivable sale plan count due index amount) db)
  unfolding insert_receivable
  Ensures-insert_receivable sale plan count due index amount db kept = Ensures-get _ _ _ (
      Ensures-write _ _ _ (
        Ensures-pure _ _ (record {
          others = kept.others;
          account =
              grows db.receivables db.payments (new_receivable sale plan count due index amount)
                (λ id. refl) (λ id. refl) (λ id. refl) kept.account;
        })))

  Ensures-create_unless :
      (there : Bool) (insert : Action ℕ) (rest : Action (List ℕ)) (db : Database)
      → IsKept P A db
      → ((d : Database) → IsKept P A d → Ensures (λ _. IsKept P A) (λ _. Unit {0}) (insert d))
      → ((d : Database) → IsKept P A d → Ensures (λ _. IsKept P A) (λ _. Unit {0}) (rest d))
      → Ensures (λ _. IsKept P A) (λ _. Unit {0}) (create_unless there insert rest db)
  unfolding create_unless
  Ensures-create_unless true insert rest db kept first later = later db kept
  Ensures-create_unless false insert rest db kept first later =
      Ensures-bind (λ _. IsKept P A) _ _ _ (first db kept)
        (λ id d known.
          Ensures-bind (λ _. IsKept P A) _ _ _ (later d known) (λ ids d'. Ensures-pure _ d'))

  Ensures-create_instalments :
      (existing : List ReceivableRow) (sale : ReceivableSaleSource) (plan : ReceivablePlanSource)
      (count : ℕ) (due : UtcDate) (index : ℕ) (amounts : List ℕ) (db : Database)
      → IsKept P A db
      → Ensures
          (λ _. IsKept P A)
          (λ _. Unit {0})
          (create_instalments existing sale plan count due index amounts db)
  unfolding create_instalments
  Ensures-create_instalments existing sale plan count due index [] db kept = Ensures-pure _ _ kept
  Ensures-create_instalments existing sale plan count due index (amount ∷ amounts) db kept =
      Ensures-create_unless _ _ _ db kept
        (Ensures-insert_receivable sale plan count due index amount)
        (Ensures-create_instalments existing sale plan count due (index + 1) amounts)

  Ensures-split_amount :
      (total count : ℕ) (db : Database)
      → IsKept P A db
      → Ensures (λ _. IsKept P A) (λ _. Unit {0}) (split_amount total count db)
  unfolding split_amount
  Ensures-split_amount total count db kept =
      Ensures-guard _ _ _ _ (λ _. Ensures-guard _ _ _ _ (λ _. Ensures-pure _ _ kept) tt) tt

  Ensures-create_plans :
      (existing : List ReceivableRow) (sale : ReceivableSaleSource)
      (plans : List ReceivablePlanSource) (db : Database)
      → IsKept P A db
      → Ensures (λ _. IsKept P A) (λ _. Unit {0}) (create_plans existing sale plans db)
  unfolding create_plans
  Ensures-create_plans existing sale [] db kept = Ensures-pure _ _ kept
  Ensures-create_plans existing sale (plan ∷ plans) db kept =
      Ensures-bind (λ _. IsKept P A) _ _ _
        (Ensures-split_amount plan.amount (count_of plan) db kept)
        (λ amounts d known.
          Ensures-bind (λ _. IsKept P A) _ _ _
            (Ensures-create_instalments existing sale plan (count_of plan)
              (first_due_date sale plan) 0 amounts d known)
            (λ ids d' known'.
              Ensures-bind (λ _. IsKept P A) _ _ _
                (Ensures-create_plans existing sale plans d' known')
                (λ rest d''. Ensures-pure _ d'')))

  Ensures-record_created :
      (sale : ReceivableSaleSource) (actor_user_id : ℕ) (ids : List ℕ) (db : Database)
      → IsKept P A db
      → Ensures (λ _. IsKept P A) (λ _. Unit {0}) (record_created sale actor_user_id ids db)
  unfolding record_created
  Ensures-record_created sale actor_user_id [] db kept = Ensures-pure _ _ kept
  Ensures-record_created sale actor_user_id (id ∷ ids) db kept =
      Ensures-recorded_many _ _ (record { others = kept.others; account = kept.account })

  pub Ensures-generate_for_sale :
      (sale : ReceivableSaleSource) (plans : List ReceivablePlanSource) (actor_user_id : ℕ)
      (db : Database)
      → IsKept P A db
      → Ensures (λ _. IsKept P A) (λ _. Unit {0}) (generate_for_sale sale plans actor_user_id db)
  unfolding generate_for_sale
  Ensures-generate_for_sale sale plans actor_user_id db kept = Ensures-get _ _ _ (
      Ensures-bind (λ _. IsKept P A) _ _ _ (Ensures-create_plans _ sale plans db kept)
        (λ ids d known.
          Ensures-then (λ _. IsKept P A) _ _ _
            (Ensures-record_created sale actor_user_id ids d known) (λ _ d'. Ensures-pure _ d')))
