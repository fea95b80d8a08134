-- ===== src/UnitHolds/Requests.antt =====
-- Any sequence of requests on reservations, proposals, sales and receivables.
use harpia_api.Prelude.{◌≡◌, ℕ, ◌+◌, ◌≤◌, List, [], ◌∷◌, arith, ◌==◌, Text}
use harpia_api.Table.{count_by}
use harpia_api.Store.{
  Database, Actor, state_of, state_of-Ensures, Ensures-weaken, Ensures-transaction, is_reservada,
}
use harpia_api.Reservations.Expiry.{normalize_unit}
use harpia_api.Reservations.Requests.{CreateReservationDto, create, cancel, convert}
use harpia_api.UnitHolds.Status.{status_on-rows_of}
use harpia_api.UnitHolds.Accounts.{IsConsistent, active_on, accepted_on, sales_on, is_sold}
use harpia_api.UnitHolds.Reservations.Expiry.{Ensures-expire, Ensures-lock_unit}
use harpia_api.Proposals.Requests as Drafts
use harpia_api.Proposals.Requests.{
  CreateProposalDto, CreateProposalVersionDto, create_version, send, reject,
}
use harpia_api.Proposals.Acceptance.{accept}
use harpia_api.Receivables.Payments as Money
use harpia_api.Receivables.Payments.{RecordPaymentDto, record_payment, reverse_payment}
use harpia_api.Sales.Shapes.{CreateSaleCommissionDto}
use harpia_api.Sales.Registration.{ConvertProposalToSaleDto, SaleSetting}
use harpia_api.Sales.Conversion.{convert_proposal}
use harpia_api.Sales.Updates.{UpdateSaleDto, update, add_commission}
use harpia_api.Sales.Cancellation.{cancel_sale}
use harpia_api.UnitHolds.Sales.Conversion.{convert_proposal-Keeps}
use harpia_api.UnitHolds.Sales.Updates.{update-Keeps, add_commission-Keeps}
use harpia_api.UnitHolds.Sales.Cancellation.{cancel_sale-Keeps}
use harpia_api.UnitHolds.Receivables.{
  record_payment-IsConsistent, reverse_payment-IsConsistent, withdraw-IsConsistent,
}
use harpia_api.UnitHolds.Proposals.Expiry.{send-IsConsistent, reject-IsConsistent}
use harpia_api.UnitHolds.Proposals.Drafting.{drafting-IsConsistent, create_version-IsConsistent}
use harpia_api.UnitHolds.Proposals.Acceptance.{accept-IsConsistent}
use harpia_api.UnitHolds.Reservations.Create.{create-Ensures}
use harpia_api.UnitHolds.Reservations.Transition.{cancel-Ensures, convert-Ensures}

-- Whatever becomes of a request to reserve a unit, the units, reservations, proposals and sales
-- stay balanced: a reserved unit has at most one active reservation or pending accepted proposal,
-- a sold unit at most one current sale, and any other unit none.
pub create-IsConsistent :
    (now id : ℕ) (actor : Actor) (dto : CreateReservationDto) (db : Database)
    → IsConsistent db
    → IsConsistent (state_of (create now id actor dto db))
create-IsConsistent now id actor dto db valid =
    state_of-Ensures IsConsistent _ (create-Ensures now id actor dto db valid)

-- Whatever becomes of a request to cancel a reservation, the tables stay balanced.
pub cancel-IsConsistent :
    (now id : ℕ) (actor : Actor) (reason : Text) (db : Database)
    → IsConsistent db
    → IsConsistent (state_of (cancel now id actor reason db))
cancel-IsConsistent now id actor reason db valid =
    state_of-Ensures IsConsistent _ (cancel-Ensures now id actor reason db valid)

-- Whatever becomes of a request to convert a reservation, the tables stay balanced.
pub convert-IsConsistent :
    (now id : ℕ) (actor : Actor) (db : Database)
    → IsConsistent db
    → IsConsistent (state_of (convert now id actor db))
convert-IsConsistent now id actor db valid =
    state_of-Ensures IsConsistent _ (convert-Ensures now id actor db valid)

-- Expiring the overdue reservations of a unit keeps the tables balanced, whether the unit is found
-- or not.
pub normalize_unit-IsConsistent :
    (now org unit_id : ℕ) (db : Database)
    → IsConsistent db
    → IsConsistent (state_of (normalize_unit now org unit_id db))
unfolding normalize_unit
normalize_unit-IsConsistent now org unit_id db valid = state_of-Ensures IsConsistent _ (
    Ensures-transaction _ _
      (Ensures-lock_unit _ _ _ _
        (λ unit _ found.
          Ensures-weaken _ (λ s d known. known.consistent)
            (Ensures-expire now org unit db valid found))
        tt)
      valid)

-- The requests that move a unit between its holders; a proposal's `now`, `id` and so on as in its
-- service.
pub data Request : Type 0 where
  reserving : (now id : ℕ) → Actor → CreateReservationDto → Request
  cancelling : (now id : ℕ) → Actor → Text → Request
  converting : (now id : ℕ) → Actor → Request
  expiring : (now org unit_id : ℕ) → Request
  drafting : (now id version_id : ℕ) → Actor → CreateProposalDto → Request
  revising : (now id version_id : ℕ) → Actor → CreateProposalVersionDto → Request
  sending : (now id : ℕ) → Actor → Request
  rejecting : (now id : ℕ) → Actor → Text → Request
  accepting : (now id handoff_id : ℕ) → Actor → Request
  selling : (now : ℕ) → SaleSetting → (id : ℕ) → Actor → ConvertProposalToSaleDto → Request
  amending : (id : ℕ) → Actor → UpdateSaleDto → Request
  commissioning : (id commission_id : ℕ) → Actor → CreateSaleCommissionDto → Request
  undoing : (now id : ℕ) → Actor → Text → Request
  paying : (now id payment_id transaction_id : ℕ) → Actor → RecordPaymentDto → Request
  refunding : (now id payment_id : ℕ) → Actor → Text → Request
  withdrawing : (now id : ℕ) → Actor → Request

abbrev pub handle : Request → Database → Database
handle (reserving now id actor dto) db = state_of (create now id actor dto db)
handle (cancelling now id actor reason) db = state_of (cancel now id actor reason db)
handle (converting now id actor) db = state_of (convert now id actor db)
handle (expiring now org unit_id) db = state_of (normalize_unit now org unit_id db)
handle (drafting now id version_id actor dto) db =
    state_of (Drafts.create now id version_id actor dto db)
handle (revising now id version_id actor dto) db =
    state_of (create_version now id version_id actor dto db)
handle (sending now id actor) db = state_of (send now id actor db)
handle (rejecting now id actor reason) db = state_of (reject now id actor reason db)
handle (accepting now id handoff_id actor) db = state_of (accept now id handoff_id actor db)
handle (selling now at id actor dto) db = state_of (convert_proposal now at id actor dto db)
handle (amending id actor dto) db = state_of (update id actor dto db)
handle (commissioning id commission_id actor dto) db =
    state_of (add_commission id commission_id actor dto db)
handle (undoing now id actor reason) db = state_of (cancel_sale now id actor reason db)
handle (paying now id payment_id transaction_id actor dto) db =
    state_of (record_payment now id payment_id transaction_id actor dto db)
handle (refunding now id payment_id actor reason) db =
    state_of (reverse_payment now id payment_id actor reason db)
handle (withdrawing now id actor) db = state_of (Money.cancel now id actor db)

abbrev pub handle_all : List Request → Database → Database
handle_all [] db = db
handle_all (q ∷ qs) db = handle_all qs (handle q db)

-- The database gives a new proposal and a new sale identifiers that no other has.
abbrev pub IsNew : Request → Database → Type 0
IsNew (drafting now id version_id actor dto) db = count_by (λ p. p.id == id) db.proposals ≡ 0
IsNew (selling now at id actor dto) db = count_by (λ s. s.id == at.sale_id) db.sales ≡ 0
IsNew _ db = Unit {0}

abbrev pub AreNew : List Request → Database → Type 0
AreNew [] db = Unit {0}
AreNew (q ∷ qs) db = IsNew q db × AreNew qs (handle q db)

handle-IsConsistent :
    (q : Request) (db : Database) → IsNew q db → IsConsistent db → IsConsistent (handle q db)
handle-IsConsistent (reserving now id actor dto) db new = create-IsConsistent now id actor dto db
handle-IsConsistent (cancelling now id actor reason) db new =
    cancel-IsConsistent now id actor reason db
handle-IsConsistent (converting now id actor) db new = convert-IsConsistent now id actor db
handle-IsConsistent (expiring now org unit_id) db new =
    normalize_unit-IsConsistent now org unit_id db
handle-IsConsistent (drafting now id version_id actor dto) db new =
    drafting-IsConsistent now id version_id actor dto db new
handle-IsConsistent (revising now id version_id actor dto) db new =
    create_version-IsConsistent now id version_id actor dto db
handle-IsConsistent (sending now id actor) db new = send-IsConsistent now id actor db
handle-IsConsistent (rejecting now id actor reason) db new =
    reject-IsConsistent now id actor reason db
handle-IsConsistent (accepting now id handoff_id actor) db new =
    accept-IsConsistent now id handoff_id actor db
handle-IsConsistent (selling now at id actor dto) db new = λ valid.
    (convert_proposal-Keeps (λ _ _. Unit {0}) (λ rs ps row a b c h. tt) now at id actor dto db new
      valid tt).0
handle-IsConsistent (amending id actor dto) db new =
    λ valid. (update-Keeps (λ _ _. Unit {0}) id actor dto db valid tt).0
handle-IsConsistent (commissioning id commission_id actor dto) db new =
    λ valid. (add_commission-Keeps (λ _ _. Unit {0}) id commission_id actor dto db valid tt).0
handle-IsConsistent (undoing now id actor reason) db new = λ valid.
    (cancel_sale-Keeps (λ _ _. Unit {0}) (λ now' org sale_id ps rs h x. tt) now id actor reason db
      valid tt).0
handle-IsConsistent (paying now id payment_id transaction_id actor dto) db new =
    record_payment-IsConsistent now id payment_id transaction_id actor dto db
handle-IsConsistent (refunding now id payment_id actor reason) db new =
    reverse_payment-IsConsistent now id payment_id actor reason db
handle-IsConsistent (withdrawing now id actor) db new = withdraw-IsConsistent now id actor db

handle_all-IsConsistent :
    (qs : List Request) (db : Database)
    → AreNew qs db
    → IsConsistent db
    → IsConsistent (handle_all qs db)
handle_all-IsConsistent [] db new valid = valid
handle_all-IsConsistent (q ∷ qs) db (new, rest) valid =
    handle_all-IsConsistent qs (handle q db) rest (handle-IsConsistent q db new valid)

-- After any sequence of requests on reservations (reserve, cancel, convert, expire), proposals
-- (draft, revise, send, reject, accept), sales (convert a proposal, change, add a commission, cancel)
-- and receivables (pay, reverse, cancel), whoever sends them and however they end, no unit has more
-- than one active reservation or pending accepted proposal, nor more than one current sale. The
-- tables are balanced at first, and new proposals and sales get identifiers that are new.
pub never_double_booked :
    (qs : List Request) (db : Database)
    → AreNew qs db
    → IsConsistent db
    → (u : ℕ)
    → (active_on u (handle_all qs db).reservations + accepted_on u (handle_all qs db).proposals ≤ 1)
      × (sales_on u (handle_all qs db).sales ≤ 1)
never_double_booked qs db new valid u =
    let known = handle_all-IsConsistent qs db new valid in
    let units = (handle_all qs db).units in
    (
      omega (arith, known.reserved u, known.unit_ids u, status_on-rows_of is_reservada u units),
      omega (arith, known.sold u, known.unit_ids u, status_on-rows_of is_sold u units),
    )
