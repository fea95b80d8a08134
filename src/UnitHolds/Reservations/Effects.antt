-- ===== src/UnitHolds/Reservations/Effects.antt =====
-- The effect of `create` of src/reservations/reservations.service.ts.
use mathlib.Core.Path.{subst}
use harpia_api.Prelude.{sym, ℕ, ◌<◌, ◌≡◌, refl, true, ◌&&◌, none, some, [], ◌∷◌, ◌++◌, arith, ◌==◌}
use harpia_api.Table.{find_first, find_many, count_by-append}
use harpia_api.Store.{
  UnitStatus, UnitRow, PersonRow, ReservationRow, Database, Actor, is_disponivel, is_reservada,
  is_ativa, Ensures, Ensures-get, Ensures-write, Ensures-written, Ensures-then, Ensures-bind,
  Ensures-pure, Ensures-unique, Ensures-record_many, Ensures-pass, Ensures-present,
  Ensures-present_then, Ensures-commit, Succeeds, Succeeds-Ensures,
}
use harpia_api.Reservations.Expiry.{unit_key, is_overdue, expire_locked_unit, expire_rows}
use harpia_api.Reservations.Requests.{
  CreateReservationDto, create, check_opportunity, insert_reservation, new_reservation,
}
use harpia_api.UnitHolds.Accounts.{IsConsistent, active_on}
use harpia_api.UnitHolds.Status.{locked_status, locked_id, locked-written}

-- The reservation is returned, the unit is reserved, and it has this one active reservation.
abbrev pub IsReserved :
    ℕ → Actor → UnitRow → CreateReservationDto → ReservationRow → Database → Type 0
IsReserved id actor unit dto r d =
    (r ≡ new_reservation id actor unit dto)
    × (find_first (unit_key unit.id actor.organization_id) d.units
        ≡ some (record unit { status = UnitStatus.reservada }))
    × (active_on unit.id d.reservations ≡ 1)

module _ (now id : ℕ) (actor : Actor) (dto : CreateReservationDto) (db : Database) (unit : UnitRow)
    (person : PersonRow) (valid : IsConsistent db)
    (found : find_first (unit_key dto.unit_id actor.organization_id) db.units ≡ some unit)
    (current : find_many (is_overdue now actor.organization_id unit.id) db.reservations ≡ [])
    (free : is_disponivel unit.status ≡ true)
    (known : find_first
        (λ p. p.id == dto.person_id && p.organization_id == actor.organization_id)
        db.people
      ≡ some person)
    (alone : dto.opportunity_id ≡ none) where
  locked : find_first (unit_key unit.id actor.organization_id) db.units ≡ some unit
  locked =
      subst (λ k. find_first (unit_key k actor.organization_id) db.units ≡ some unit)
        (sym (locked_id dto.unit_id actor.organization_id db.units found)) found

  none_active : active_on unit.id db.reservations ≡ 0
  none_active = ground (
    arith,
    valid.reserved unit.id,
    locked_status is_reservada unit.id actor.organization_id db.units (valid.unit_ids unit.id)
        locked,
  )

  Ensures-nothing_expired :
      Ensures
        (λ s d. (s ≡ unit.status) × (d ≡ db))
        (λ _. ⊥)
        (expire_locked_unit now unit actor.organization_id db)
  unfolding expire_locked_unit expire_rows
  Ensures-nothing_expired = rw current (Ensures-pure _ _ (refl, refl))

  Ensures-no_opportunity :
      Ensures
        (λ _ d. d ≡ db)
        (λ _. ⊥)
        (check_opportunity dto.opportunity_id actor.organization_id dto.person_id unit db)
  unfolding check_opportunity
  Ensures-no_opportunity = rw alone (Ensures-pure _ _ refl)

  Ensures-inserted :
      Ensures
        (λ _ d.
          d
          ≡ record db { reservations = db.reservations ++ new_reservation id actor unit dto ∷ [] })
        (λ _. ⊥)
        (insert_reservation (new_reservation id actor unit dto) db)
  unfolding insert_reservation
  Ensures-inserted =
      Ensures-get _ _ _
        (Ensures-pass _ _ _ _ (ground (arith, none_active)) (Ensures-written _ _ refl))

  one_active : active_on unit.id (db.reservations ++ new_reservation id actor unit dto ∷ []) ≡ 1
  one_active = ground (
    arith,
    none_active,
    count_by-append (λ r. r.unit_id == unit.id && is_ativa r.status) db.reservations
        (new_reservation id actor unit dto ∷ []),
  )

  -- From balanced tables, a reservation with an expiry in the future, of an available unit of the
  -- tenant with no overdue reservation, for a person of the tenant and no opportunity, succeeds: the
  -- unit is then reserved and has this one active reservation.
  pub reserve_lem :
      now < dto.expires_at → Succeeds (IsReserved id actor unit dto) (create now id actor dto db)
  unfolding create
  reserve_lem future = Succeeds-Ensures _ (
      Ensures-pass _ _ _ _ (ground arith) (
        Ensures-unique _ _ _ (
          Ensures-commit _ _ (
            Ensures-present _ _ _ _ unit found (
              Ensures-bind _ _ _ _ Ensures-nothing_expired (λ s d (same_status, same). rw same (
                rw same_status (
                  Ensures-pass _ _ _ _ (ground arith) (
                    Ensures-get _ _ _ (
                      Ensures-present_then _ _ _ _ person known (
                        Ensures-then _ _ _ _ Ensures-no_opportunity (λ _ d' same'. rw same' (
                          Ensures-then _ _ _ _ Ensures-inserted (λ _ d'' same''. rw same'' (
                            Ensures-write _ _ _ (
                              Ensures-record_many _ _ _ (
                                Ensures-pure _ _ (
                                  refl,
                                  locked-written unit.id actor.organization_id UnitStatus.reservada
                                      db.units unit locked,
                                  one_active,
                                ))))))))))))))))))
