-- ===== src/Sales/Cancellation.antt =====
-- The cancellation of a sale (distrato): `cancel` of src/sales/sale-cancellations.service.ts.
use harpia_api.Prelude.{
  ℕ, Bool, true, false, ◌&&◌, ◌||◌, not, none, some, List, [], ◌∷◌, ◌++◌, map, Text, ◌==◌, is_some,
  elem, is_value,
}
use harpia_api.Table.{find_first, find_many, modify}
use harpia_api.Store.{
  UnitStatus, SaleStatus, SaleCommissionStatus, ReceivableStatus, PayableStatus,
  CollectionDispatchStatus, UnitRow, SaleRow, SaleCommission, ReceivableRow, PayableRow,
  SaleCancellationRow, Database, AuditAction, EntityType, Actor, Action, Error, raise_if, gets,
  transaction, modify_db, record_one, is_current, is_paga, is_payable_pago, ◌>>=◌, ◌>>◌,
}
use harpia_api.Reservations.Requests.{entry}
use harpia_api.Opportunities.Stage.{trim}
use harpia_api.Sales.Conversion.{lock_sale}
use harpia_api.Sales.Updates.{set_sale}

-- A receivable of the sale with money in it.
abbrev pub is_received : ℕ → ReceivableRow → Bool
is_received sale_id r = is_value r.sale_id sale_id && not (r.paid_amount == 0)

abbrev pub has_paid_payable : List PayableRow → SaleCommission → Bool
has_paid_payable ps c =
    is_some (find_first (λ p. is_value p.sale_commission_id c.id && not (p.paid_amount == 0)) ps)

abbrev pub is_settled : List PayableRow → SaleCommission → Bool
is_settled ps c = is_paga c.status || has_paid_payable ps c

abbrev pub is_due : CollectionDispatchStatus → Bool
is_due CollectionDispatchStatus.pendente = true
is_due CollectionDispatchStatus.falhou = true
is_due _ = false

abbrev pub receivable_ids : ℕ → Database → List ℕ
receivable_ids sale_id db =
    map (λ (r : ReceivableRow). r.id) (find_many (λ r. is_value r.sale_id sale_id) db.receivables)

abbrev pub cancel_dispatches : ℕ → List ℕ → Database → Database
cancel_dispatches org ids db = record db {
  collection_dispatches =
      modify (λ d. d.organization_id == org && elem d.receivable_id ids && is_due d.status)
        (λ d. record d { status = CollectionDispatchStatus.cancelado }) db.collection_dispatches;
}

abbrev pub is_receivable_of : ℕ → ℕ → ReceivableRow → Bool
is_receivable_of org sale_id r = r.organization_id == org && is_value r.sale_id sale_id

abbrev pub closed : ℕ → ReceivableRow → ReceivableRow
closed now r = record r { status = ReceivableStatus.cancelado; cancelled_at = some now }

abbrev pub close_receivables : ℕ → ℕ → ℕ → Database → Database
close_receivables now org sale_id db = record db {
  receivables = modify (is_receivable_of org sale_id) (closed now) db.receivables;
}

abbrev pub is_commission_payable : ℕ → List ℕ → PayableRow → Bool
is_commission_payable org ids p =
    p.organization_id == org
    && (elim p.sale_commission_id [ none ↦ false | some id ↦ elem id ids ])
    && not (is_payable_pago p.status)

abbrev pub cancel_payables : ℕ → ℕ → List ℕ → Database → Database
cancel_payables now org ids db = record db {
  payables =
      modify (is_commission_payable org ids)
        (λ p. record p { status = PayableStatus.cancelado; cancelled_at = some now }) db.payables;
}

abbrev pub dropped : SaleCommission → SaleCommission
dropped c = record c { status = SaleCommissionStatus.cancelada }

-- The commissions of the sale and the sale itself; both carry the tenant of the sale.
abbrev pub drop_commissions : SaleRow → SaleRow
drop_commissions s = record s { commissions = map dropped s.commissions }

abbrev pub undone : ℕ → SaleRow → SaleRow
undone now s = record s { status = SaleStatus.distratada; cancelled_at = some now }

abbrev pub is_sold_unit : ℕ → ℕ → UnitRow → Bool
is_sold_unit id org u =
    u.id == id
    && u.organization_id == org
    && (elim u.status [ UnitStatus.vendida ↦ true | UnitStatus.quitada ↦ true | _ ↦ false ])

abbrev pub release_unit : ℕ → ℕ → Database → Database
release_unit id org db = record db {
  units = modify (is_sold_unit id org) (λ u. record u { status = UnitStatus.distratada }) db.units;
}

abbrev pub insert_cancellation : SaleCancellationRow → Database → Database
insert_cancellation c db = record db { sale_cancellations = db.sale_cancellations ++ c ∷ [] }

-- The callback of `cancel`.
unfoldable pub undo : ℕ → ℕ → Actor → Text → Action (Unit {0})
unfolding lock_sale trim
undo now id actor reason = do
  sale ← lock_sale id actor.organization_id
  raise_if (not (is_current sale.status)) Error.sale_closed
  received ← gets (λ db. find_first (is_received sale.id) db.receivables)
  raise_if (is_some received) Error.sale_has_receipts
  settled ← gets (λ db. find_first (is_settled db.payables) sale.commissions)
  raise_if (is_some settled) Error.sale_has_paid_commission
  ids ← gets (receivable_ids sale.id)
  modify_db (cancel_dispatches actor.organization_id ids)
  modify_db (close_receivables now actor.organization_id sale.id)
  modify_db (
      cancel_payables now actor.organization_id
        (map (λ (c : SaleCommission). c.id) sale.commissions))
  modify_db (set_sale sale.id drop_commissions)
  modify_db (set_sale sale.id (undone now))
  modify_db (release_unit sale.unit_id actor.organization_id)
  modify_db (
      insert_cancellation (record {
        organization_id = actor.organization_id;
        sale_id = sale.id;
        reason = trim reason;
        cancelled_by_user_id = actor.id;
      }))
  record_one (entry actor AuditAction.sale_cancelled EntityType.sale sale.id)

-- `cancel`; the notification afterwards cannot fail the request and is left out.
unfoldable pub cancel_sale : ℕ → ℕ → Actor → Text → Action SaleRow
unfolding undo lock_sale
cancel_sale now id actor reason = do
  transaction (undo now id actor reason)
  lock_sale id actor.organization_id
