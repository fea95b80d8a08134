-- ===== src/Sales/Refusals.antt =====
-- Sales that `cancel` of src/sales/sale-cancellations.service.ts does not undo.
use Prim.{absurd}
use harpia_api.Prelude.{ℕ, ◌≡◌, refl, false, Option, none, some, arith, Text, is_some}
use harpia_api.Table.{find_first, find_first_holds}
use harpia_api.Store.{
  ReceivableRow, SaleRow, Database, Actor, state_of, Ensures, state_of-Ensures, Ensures-then,
  Ensures-get, Ensures-found, Ensures-guard, Ensures-transaction,
}
use harpia_api.Sales.Conversion.{lock_sale, sale_key}
use harpia_api.Sales.Cancellation.{is_received, undo, cancel_sale}

found_lem : {A : Type 0} (o : Option A) {a : A} → o ≡ some a → is_some o ≡ false → ⊥
found_lem none is off = cc
found_lem (some b) is off = cc

-- A request that ends normally nowhere leaves the database as it was.
never_undone :
    (now id : ℕ) (actor : Actor) (reason : Text) (db : Database)
    → Ensures (λ _ _. ⊥) (λ _. Unit {0}) (undo now id actor reason db)
    → state_of (cancel_sale now id actor reason db) ≡ db
unfolding cancel_sale
never_undone now id actor reason db h =
    state_of-Ensures (λ d. d ≡ db) (cancel_sale now id actor reason db)
      (Ensures-then (λ _ _. ⊥) _ _ _ (Ensures-transaction _ _ h refl) (λ _ d bad. absurd bad))

-- A sale with money in one of its receivables is not undone: a request to cancel it, whoever sends
-- it, leaves the database as it was.
pub cancel_sale_received :
    (now id : ℕ) (actor : Actor) (reason : Text) (db : Database) (r : ReceivableRow)
    → find_first (is_received id) db.receivables ≡ some r
    → state_of (cancel_sale now id actor reason db) ≡ db
unfolding undo lock_sale
cancel_sale_received now id actor reason db r paid = never_undone now id actor reason db (
    Ensures-found _ _ _ _
      (λ sale found.
        Ensures-guard _ _ _ _
          (λ _.
            Ensures-get _ _ _
              (Ensures-guard _ _ _ _ (λ unpaid. absurd (contradiction sale found unpaid)) tt))
          tt)
      tt)
  where
    contradiction :
        (sale : SaleRow)
        → find_first (sale_key id actor.organization_id) db.sales ≡ some sale
        → is_some (find_first (is_received sale.id) db.receivables) ≡ false
        → ⊥
    contradiction sale found unpaid =
        let named : sale.id ≡ id =
          ground
            (arith, find_first_holds (sale_key id actor.organization_id) db.sales sale found) in
        found_lem _ paid (rw named at unpaid)
