-- ===== src/UnitHolds/Reservations/Create.antt =====
-- `create` of src/reservations/reservations.service.ts and the commercial invariant.
use harpia_api.Prelude.{
  ℕ, ◌+◌, ◌≤◌, ◌≡◌, ◌≢◌, refl, ◌&&◌, Option, none, some, List, [], ◌∷◌, ◌++◌, arith, ◌==◌,
}
use harpia_api.Table.{count_by-append}
use harpia_api.Store.{
  Action, ◌>>◌, UnitRow, ReservationRow, Database, is_ativa, Actor, Ensures, Ensures-guard,
  Ensures-unique, Ensures-transaction, Ensures-bind, Ensures-get, Ensures-row, Ensures-then,
  Ensures-row_then, Ensures-guarded, Ensures-pure, Ensures-write, Ensures-written,
  Ensures-record_many,
}
use harpia_api.Reservations.Requests.{
  create, CreateReservationDto, check_opportunity, insert_reservation,
}
use harpia_api.UnitHolds.Accounts.{IsConsistent, active_on}
use harpia_api.UnitHolds.Balance.{reserve}
use harpia_api.UnitHolds.Reservations.Expiry.{Ensures-expire, Ensures-lock_unit}

-- The opportunity of a reservation is only read.
pub Ensures-check_opportunity :
    {B : Type 0} {Q : B → Database → Type 0} {E : Database → Type 0} (id : Option ℕ)
    (org person : ℕ) (unit : UnitRow) (n : Action B) (db : Database)
    → Ensures Q E (n db)
    → E db
    → Ensures Q E ((check_opportunity id org person unit >> n) db)
unfolding check_opportunity
Ensures-check_opportunity none org person unit n db q x =
    Ensures-then (λ _ d. d ≡ db) _ _ _ (Ensures-pure tt db refl) (λ _ d e. rw e q)
Ensures-check_opportunity (some id) org person unit n db q x =
    Ensures-then (λ _ d. d ≡ db) _ _ _
      (Ensures-get _ _ _ (
        Ensures-row _ _ _ _
          (λ o e. Ensures-get _ _ _ (
            Ensures-guard _ _ _ _
              (λ a. Ensures-guard _ _ _ _ (λ b. Ensures-guarded _ _ _ (λ c. refl) x) x) x))
          x))
      (λ _ d e. rw e q)

pub Ensures-insert :
    {B : Type 0} {Q : B → Database → Type 0} {E : Database → Type 0} (r : ReservationRow)
    (n : Action B) (db : Database)
    → Ensures Q E (n (record db { reservations = db.reservations ++ r ∷ [] }))
    → E db
    → Ensures Q E ((insert_reservation r >> n) db)
unfolding insert_reservation
Ensures-insert r n db q x =
    Ensures-then (λ _ d. d ≡ record db { reservations = db.reservations ++ r ∷ [] }) _ _ _
      (Ensures-get _ _ _ (Ensures-guard _ _ _ _ (λ a. Ensures-written _ _ refl) x))
      (λ _ d e. rw e q)

-- A new reservation is one more on its unit and none on any other.
active_on-append_self :
    (r : ReservationRow) (rs : List ReservationRow)
    → active_on r.unit_id (rs ++ r ∷ []) ≤ active_on r.unit_id rs + 1
active_on-append_self r rs =
    ground (arith, count_by-append (λ x. x.unit_id == r.unit_id && is_ativa x.status) rs (r ∷ []))

active_on-append_ne :
    (u : ℕ) (r : ReservationRow) (rs : List ReservationRow)
    → u ≢ r.unit_id
    → active_on u (rs ++ r ∷ []) ≤ active_on u rs
active_on-append_ne u r rs ne =
    ground (arith, count_by-append (λ x. x.unit_id == u && is_ativa x.status) rs (r ∷ []))

-- Whatever becomes of the request, it keeps the invariant.
pub create-Ensures :
    (now id : ℕ) (actor : Actor) (dto : CreateReservationDto) (db : Database)
    → IsConsistent db
    → Ensures (λ _. IsConsistent) IsConsistent (create now id actor dto db)
unfolding create
create-Ensures now id actor dto db valid =
    Ensures-guard _ _ _ _
      (λ _. Ensures-unique _ _ _ (
        Ensures-transaction _ _
          (Ensures-lock_unit _ _ _ _
            (λ unit _ found.
              Ensures-bind _ _ _ _ (Ensures-expire now actor.organization_id unit db valid found)
                (λ s db' known.
                  Ensures-guard _ _ _ _
                    (λ free. Ensures-get _ _ _ (
                      Ensures-row_then _ _ _ _
                        (λ p pf.
                          Ensures-check_opportunity _ _ _ _ _ _
                            (Ensures-insert _ _ _
                              (Ensures-write _ _ _ (
                                Ensures-record_many _ _ _ (
                                  Ensures-pure _ _ (
                                    reserve unit.id actor.organization_id known.consistent
                                      known.locked (ground arith)
                                      (omega (arith, active_on-append_self _ db'.reservations))
                                      (λ u ne.
                                        omega
                                          (arith, active_on-append_ne u _ db'.reservations ne))))))
                              tt)
                            tt)
                        tt))
                    tt))
            tt)
          valid))
      valid
