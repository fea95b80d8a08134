-- ===== src/UnitHolds/Reservations/Transition.antt =====
-- `cancel` and `convert` of src/reservations/reservations.service.ts and the commercial invariant.
use harpia_api.Prelude.{
  ℕ, ◌+◌, ◌≤◌, ◌≡◌, refl, true, false, ◌&&◌, not, some, List, arith, ◌==◌, Text, Bool-cases, inl,
  inr,
}
use harpia_api.Table.{
  find_first, find_many, count_by, count_by-modify, count_by-modify_le, count_by-find_first,
  count_by_none, find_first-unmodify,
}
use harpia_api.Store.{
  Action, UnitStatus, UnitReservationStatus, UnitRow, ReservationRow, Database, is_ativa,
  is_reservada, Actor, Ensures, Ensures-guard, Ensures-transaction, Ensures-get, Ensures-row,
  Ensures-then, Ensures-write, Ensures-recorded_many, Ensures-recorded_one,
}
use harpia_api.Reservations.Expiry.{unit_key, has_id, is_overdue, expire}
use harpia_api.Reservations.Requests.{
  transition, reservation_key, set_reservation, cancelled, converted, cancel_locked, convert_locked,
  cancel, convert,
}
use harpia_api.UnitHolds.Accounts.{IsConsistent, active_on}
use harpia_api.UnitHolds.Balance.{release, shrink}
use harpia_api.UnitHolds.Status.{locked_id, locked_status}
use harpia_api.UnitHolds.Reservations.Expiry.{Ensures-expire, Ensures-lock_unit, IsExpired}

-- What the callback of `transition` starts from: an active reservation of the locked unit.
pub record IsTransition (org : ℕ) (unit : UnitRow) (r : ReservationRow) (s : UnitStatus)
    (db : Database) : Type 0 where
  pub consistent : IsConsistent db
  pub locked : find_first (unit_key unit.id org) db.units ≡ some (record unit { status = s })
  pub counted :
      1
      ≤ count_by (λ x. x.id == r.id && (x.unit_id == unit.id && is_ativa x.status)) db.reservations

-- The reservation that is found after the expiry is the one that named the unit.
same_unit :
    (id org : ℕ) (es : List ReservationRow) (db : Database) (c r : ReservationRow)
    → find_first (reservation_key id org) db.reservations ≡ some c
    → find_first (reservation_key id org) (expire es db).reservations ≡ some r
    → r.unit_id ≡ c.unit_id
same_unit id org es db c r ec er =
    let (x, ex, e) =
      find_first-unmodify (reservation_key id org) (λ r. has_id es r.id)
        (λ r. record r { status = UnitReservationStatus.expirada }) db.reservations r (λ x. refl)
        er in
    ground (arith, ec, ex, e)

IsTransition-known :
    (now id org : ℕ) (unit : UnitRow) (c r : ReservationRow) (s : UnitStatus) (db db' : Database)
    → find_first (reservation_key id org) db.reservations ≡ some c
    → find_first (unit_key c.unit_id org) db.units ≡ some unit
    → IsExpired now org unit db s db'
    → find_first (reservation_key id org) db'.reservations ≡ some r
    → not (is_ativa r.status) ≡ false
    → IsTransition org unit r s db'
IsTransition-known now id org unit c r s db db' ec named known er active =
    let of_unit =
      same_unit id org (find_many (is_overdue now org unit.id) db.reservations) db c r ec
        (rw known.rows at er) in
    let named_id = locked_id c.unit_id org db.units named in
    record {
      consistent = known.consistent;
      locked = known.locked;
      counted =
          count_by-find_first (reservation_key id org) _ db'.reservations r er
            (ground (arith, active, of_unit, named_id));
    }

transition-Ensures :
    (now id : ℕ) (actor : Actor) (mutation : UnitRow → ReservationRow → Action (Unit {0}))
    (db : Database)
    → ((unit : UnitRow) (r : ReservationRow) (s : UnitStatus) (db' : Database)
        → IsTransition actor.organization_id unit r s db'
        → Ensures (λ _. IsConsistent) (λ _. Unit {0}) (mutation unit r db'))
    → IsConsistent db
    → Ensures (λ _. IsConsistent) IsConsistent (transition now id actor mutation db)
unfolding transition
transition-Ensures now id actor mutation db keep valid = Ensures-get _ _ _ (
    Ensures-row _ _ _ _
      (λ c ec.
        Ensures-transaction _ _
          (Ensures-lock_unit _ _ _ _
            (λ unit named found.
              Ensures-then _ _ _ _ (Ensures-expire now actor.organization_id unit db valid found)
                (λ s db' known. Ensures-get _ _ _ (
                  Ensures-row _ _ _ _
                    (λ r er.
                      Ensures-guard _ _ _ _
                        (λ active. keep unit r s db' (
                          IsTransition-known now id actor.organization_id unit c r s db db' ec named
                            known er active))
                        tt)
                    tt)))
            tt)
          valid)
      valid)

-- Cancelling takes the reservation off its unit.
active_on-cancelled :
    (now : ℕ) (actor : Actor) (reason : Text) (id u : ℕ) (db : Database)
    → active_on u (set_reservation id (cancelled now actor reason) db).reservations
        + count_by (λ x. x.id == id && (x.unit_id == u && is_ativa x.status)) db.reservations
      ≡ active_on u db.reservations
active_on-cancelled now actor reason id u db = omega (
  arith,
  count_by-modify (λ r. r.id == id) (λ r. r.unit_id == u && is_ativa r.status)
      (cancelled now actor reason) db.reservations,
  count_by_none (λ r. r.id == id && (r.unit_id == u && is_ativa UnitReservationStatus.cancelada))
      db.reservations (λ r. ground arith),
)

cancel_locked-Ensures :
    (now : ℕ) (actor : Actor) (reason : Text) (unit : UnitRow) (r : ReservationRow) (s : UnitStatus)
    (db : Database)
    → IsTransition actor.organization_id unit r s db
    → Ensures (λ _. IsConsistent) (λ _. Unit {0}) (cancel_locked now actor reason unit r db)
unfolding cancel_locked
cancel_locked-Ensures now actor reason unit r s db known =
    elim (Bool-cases (is_reservada unit.status)) [
      | inl t ↦ Ensures-write _ _ _ (
          Ensures-write _ _ _ (
            Ensures-recorded_many _ _ (
              rw t (
                release unit.id actor.organization_id known.consistent known.locked still_reserved
                  (omega
                    (arith, active_on-cancelled now actor reason r.id unit.id db, known.counted))
                  less))))
      | inr t ↦
          Ensures-write _ _ _
            (Ensures-write _ _ _ (Ensures-recorded_many _ _ (rw t (shrink known.consistent less))))
    ]
  where
    less :
        (u : ℕ)
        → active_on u (set_reservation r.id (cancelled now actor reason) db).reservations
          ≤ active_on u db.reservations
    less u = omega (arith, active_on-cancelled now actor reason r.id u db)

    still_reserved : is_reservada s ≡ true
    still_reserved = ground (
      arith,
      known.consistent.reserved unit.id,
      known.counted,
      active_on-cancelled now actor reason r.id unit.id db,
      locked_status is_reservada unit.id actor.organization_id db.units
          (known.consistent.unit_ids unit.id) known.locked,
    )

convert_locked-Ensures :
    (now : ℕ) (actor : Actor) (unit : UnitRow) (r : ReservationRow) (s : UnitStatus) (db : Database)
    → IsTransition actor.organization_id unit r s db
    → Ensures (λ _. IsConsistent) (λ _. Unit {0}) (convert_locked now actor unit r db)
unfolding convert_locked
convert_locked-Ensures now actor unit r s db known = Ensures-write _ _ _ (
    Ensures-recorded_one _ _ (
      shrink known.consistent (λ u.
        count_by-modify_le (λ x. x.id == r.id) (λ x. x.unit_id == u && is_ativa x.status)
          (converted now actor) db.reservations (λ x a b. ground arith))))

pub cancel-Ensures :
    (now id : ℕ) (actor : Actor) (reason : Text) (db : Database)
    → IsConsistent db
    → Ensures (λ _. IsConsistent) IsConsistent (cancel now id actor reason db)
unfolding cancel
cancel-Ensures now id actor reason db valid =
    transition-Ensures now id actor (cancel_locked now actor reason) db
      (cancel_locked-Ensures now actor reason) valid

pub convert-Ensures :
    (now id : ℕ) (actor : Actor) (db : Database)
    → IsConsistent db
    → Ensures (λ _. IsConsistent) IsConsistent (convert now id actor db)
unfolding convert
convert-Ensures now id actor db valid =
    transition-Ensures now id actor (convert_locked now actor) db (convert_locked-Ensures now actor)
      valid
