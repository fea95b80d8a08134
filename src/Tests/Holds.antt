-- ===== src/Tests/Holds.antt =====
-- Reservation requests on the sample database.
use harpia_api.Table.{count_by}
use harpia_api.Prelude.{◌==◌, ◌+◌, ◌≤◌, ◌≡◌, refl, none, List, [], ◌∷◌, arith, map}
use harpia_api.UnitHolds.Reservations.Effects.{IsReserved, reserve_lem}
use harpia_api.Store.{Succeeds, UnitStatus, UnitRow, Database, state_of, run}
use harpia_api.Reservations.Expiry.{normalize_unit}
use harpia_api.Reservations.Requests.{CreateReservationDto, create, cancel}
use harpia_api.Proposals.Acceptance.{accept}
use harpia_api.UnitHolds.Proposals.Acceptance.{accept-IsConsistent}
use harpia_api.UnitHolds.{IsConsistent, active_on, accepted_on, sales_on}
use harpia_api.UnitHolds.Requests.{
  Request, handle_all, create-IsConsistent, cancel-IsConsistent, never_double_booked,
}
use harpia_api.Tests.Sales.{setting, sale_dto, payment_dto}
use harpia_api.Tests.Valid.{sample-IsConsistent}
use harpia_api.Tests.Samples.{unit_row, sample, actor}

abbrev statuses : Database → List UnitStatus
statuses db = map (λ (u : UnitRow). u.status) db.units

abbrev new_dto : CreateReservationDto
new_dto = record {
  unit_id = 1;
  person_id = 5;
  opportunity_id = none;
  expires_at = 900;
  notes = none;
}

-- Reserving the available unit.
reserved_test :
    statuses (state_of (create 100 21 actor new_dto sample))
    ≡ UnitStatus.reservada ∷ UnitStatus.reservada ∷ UnitStatus.vendida ∷ []
unfolding create run
reserved_test = refl

-- Reserving it twice: the second request changes nothing.
reserved_twice_test :
    state_of (create 101 22 actor new_dto (state_of (create 100 21 actor new_dto sample)))
    ≡ state_of (create 100 21 actor new_dto sample)
unfolding create run
reserved_twice_test = refl

-- Cancelling the reservation of the second unit frees it, and so does its expiry.
cancelled_test :
    statuses (state_of (cancel 100 20 actor [] sample))
    ≡ UnitStatus.disponivel ∷ UnitStatus.disponivel ∷ UnitStatus.vendida ∷ []
unfolding cancel run
cancelled_test = refl

expired_test :
    statuses (state_of (normalize_unit 600 1 2 sample))
    ≡ UnitStatus.disponivel ∷ UnitStatus.disponivel ∷ UnitStatus.vendida ∷ []
unfolding normalize_unit run
expired_test = refl

create-IsConsistent_example : IsConsistent (state_of (create 100 21 actor new_dto sample))
create-IsConsistent_example = create-IsConsistent 100 21 actor new_dto sample sample-IsConsistent

reserve_lem_example :
    Succeeds
      (IsReserved 21 actor (unit_row 1 UnitStatus.disponivel) new_dto)
      (create 100 21 actor new_dto sample)
reserve_lem_example =
    reserve_lem 100 21 actor new_dto sample (unit_row 1 UnitStatus.disponivel)
      (record { id = 5; organization_id = 1 }) sample-IsConsistent refl refl refl refl refl
      (omega arith)

cancel-IsConsistent_example : IsConsistent (state_of (cancel 100 20 actor [] sample))
cancel-IsConsistent_example = cancel-IsConsistent 100 20 actor [] sample sample-IsConsistent

-- Accepting the proposal takes the available unit, and its second proposal cannot be accepted.
accepted_test :
    statuses (state_of (accept 100 50 23 actor sample))
    ≡ UnitStatus.reservada ∷ UnitStatus.reservada ∷ UnitStatus.vendida ∷ []
unfolding accept run
accepted_test = refl

accept-IsConsistent_example : IsConsistent (state_of (accept 100 50 23 actor sample))
accept-IsConsistent_example = accept-IsConsistent 100 50 23 actor sample sample-IsConsistent

abbrev requests : List Request
requests =
    Request.accepting 110 50 23 actor
    ∷ Request.selling 120 setting 50 actor sale_dto
    ∷ Request.paying 130 72 81 86 actor payment_dto
    ∷ Request.undoing 140 61 actor []
    ∷ Request.reserving 150 22 actor new_dto
    ∷ Request.expiring 600 1 2
    ∷ []

accepted_sales_test :
    count_by (λ s. s.id == setting.sale_id) (state_of (accept 110 50 23 actor sample)).sales ≡ 0
unfolding accept run
accepted_sales_test = refl

never_double_booked_example :
    (active_on 1 (handle_all requests sample).reservations
        + accepted_on 1 (handle_all requests sample).proposals
      ≤ 1)
    × (sales_on 1 (handle_all requests sample).sales ≤ 1)
never_double_booked_example =
    never_double_booked requests sample (tt, (accepted_sales_test, (tt, (tt, (tt, (tt, tt))))))
      sample-IsConsistent 1
