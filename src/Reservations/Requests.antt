-- ===== src/Reservations/Requests.antt =====
-- The requests that create, cancel and convert a reservation: `create`, `cancel`, `convert` and
-- `transition` of src/reservations/reservations.service.ts.
use harpia_api.Prelude.{
  ℕ, Bool, false, ◌&&◌, ◌||◌, not, Option, none, some, List, [], ◌∷◌, ◌++◌, Text, leb, ◌==◌,
  if◌then◌else◌,
}
use harpia_api.Table.{find_first, modify, count_by}
use harpia_api.Store.{
  UnitStatus, UnitReservationStatus, UnitRow, ReservationRow, OpportunityRow, Database, AuditEntry,
  AuditAction, EntityType, Actor, Action, Error, pure, or_raise, raise_if, gets, transaction,
  modify_db, record_many, record_one, on_unique_violation, is_ativa, is_reservada, is_disponivel,
  ◌>>=◌, ◌>>◌,
}
use harpia_api.Reservations.Expiry.{lock_unit, set_unit_status, expire_locked_unit}

-- CreateReservationDto
pub record CreateReservationDto : Type 0 where
  pub unit_id : ℕ
  pub person_id : ℕ
  pub opportunity_id : Option ℕ
  pub expires_at : ℕ
  pub notes : Option Text

-- `a && a !== b` for a nullable identifier `a`
abbrev pub differs : Option ℕ → ℕ → Bool
differs none b = false
differs (some a) b = not (a == b)

-- `stage: { select: { isWon: true, isLost: true } }`; the foreign key gives every opportunity a stage.
abbrev pub is_closed : Database → OpportunityRow → Bool
is_closed db o = elim (find_first (λ s. s.id == o.stage_id) db.stages) [
  | none ↦ false
  | some s ↦ s.is_won || s.is_lost
]

-- The opportunity of a new reservation or proposal, where one is named.
unfoldable pub check_opportunity : Option ℕ → ℕ → ℕ → UnitRow → Action (Unit {0})
check_opportunity none org person_id unit = pure tt
check_opportunity (some id) org person_id unit = do
  o ←
      or_raise
        (← gets (λ db. find_first (λ o. o.id == id && o.organization_id == org) db.opportunities))
        Error.invalid_opportunity
  closed ← gets (λ db. is_closed db o)
  raise_if closed Error.opportunity_closed
  raise_if (not (o.person_id == person_id)) Error.opportunity_of_other_person
  raise_if (differs o.development_id unit.development_id || differs o.unit_id unit.id)
      Error.unit_mismatch

-- `notes || undefined`
abbrev pub text_or_none : Option Text → Option Text
text_or_none none = none
text_or_none (some []) = none
text_or_none (some (c ∷ s)) = some (c ∷ s)

abbrev pub new_reservation : ℕ → Actor → UnitRow → CreateReservationDto → ReservationRow
new_reservation id actor unit dto = record {
  id = id;
  organization_id = actor.organization_id;
  unit_id = unit.id;
  person_id = dto.person_id;
  opportunity_id = dto.opportunity_id;
  created_by_user_id = actor.id;
  status = UnitReservationStatus.ativa;
  expires_at = dto.expires_at;
  notes = text_or_none dto.notes;
  cancelled_at = none;
  cancelled_by_user_id = none;
  cancellation_reason = none;
  converted_at = none;
  converted_by_user_id = none;
}

abbrev pub is_active_on : ℕ → ReservationRow → Bool
is_active_on unit_id r = r.unit_id == unit_id && is_ativa r.status

-- `tx.unitReservation.create`, under the index "UnitReservation_one_active_per_unit".
unfoldable pub insert_reservation : ReservationRow → Action (Unit {0})
insert_reservation r = do
  active ← gets (λ db. count_by (is_active_on r.unit_id) db.reservations)
  raise_if (is_ativa r.status && not (active == 0)) Error.unique_violation
  modify_db (λ db. record db { reservations = db.reservations ++ r ∷ [] })

abbrev pub entry : Actor → AuditAction → EntityType → ℕ → AuditEntry
entry actor action type id = record {
  organization_id = actor.organization_id;
  actor_user_id = some actor.id;
  action = action;
  entity_type = type;
  entity_id = some id;
}

-- `create`; `id` is the identifier that the database gives the new row.
unfoldable pub create : ℕ → ℕ → Actor → CreateReservationDto → Action ReservationRow
unfolding expire_locked_unit check_opportunity insert_reservation
create now id actor dto = do
  raise_if (leb dto.expires_at now) Error.expiration_in_past
  on_unique_violation Error.unit_already_reserved (
      transaction (do
        unit ← lock_unit dto.unit_id actor.organization_id
        current ← expire_locked_unit now unit actor.organization_id
        raise_if (not (is_disponivel current)) Error.unit_not_available
        or_raise
            (← gets (λ db.
              find_first (λ p. p.id == dto.person_id && p.organization_id == actor.organization_id)
                db.people))
            Error.invalid_person
        check_opportunity dto.opportunity_id actor.organization_id dto.person_id unit
        let reservation = new_reservation id actor unit dto
        insert_reservation reservation
        modify_db (set_unit_status unit.id UnitStatus.reservada)
        record_many (
            entry actor AuditAction.unit_reserved EntityType.unit_reservation id
            ∷ entry actor AuditAction.update EntityType.unit unit.id
            ∷ [])
        pure reservation))

abbrev pub reservation_key : ℕ → ℕ → ReservationRow → Bool
reservation_key id org r = r.id == id && r.organization_id == org

-- `transition`: the guard that `cancel` and `convert` share.
unfoldable pub transition :
    {A : Type 0} → ℕ → ℕ → Actor → (UnitRow → ReservationRow → Action A) → Action A
unfolding expire_locked_unit
transition now id actor mutation = do
  candidate ←
      or_raise
        (← gets (λ db. find_first (reservation_key id actor.organization_id) db.reservations))
        Error.reservation_not_found
  transaction (do
    unit ← lock_unit candidate.unit_id actor.organization_id
    expire_locked_unit now unit actor.organization_id
    reservation ←
        or_raise
          (← gets (λ db. find_first (reservation_key id actor.organization_id) db.reservations))
          Error.reservation_not_found
    raise_if (not (is_ativa reservation.status)) Error.reservation_not_active
    mutation unit reservation)

abbrev pub set_reservation : ℕ → (ReservationRow → ReservationRow) → Database → Database
set_reservation id f db = record db { reservations = modify (λ r. r.id == id) f db.reservations }

abbrev pub cancelled : ℕ → Actor → Text → ReservationRow → ReservationRow
cancelled now actor reason r = record r {
  status = UnitReservationStatus.cancelada;
  cancelled_at = some now;
  cancelled_by_user_id = some actor.id;
  cancellation_reason = some reason;
}

abbrev pub converted : ℕ → Actor → ReservationRow → ReservationRow
converted now actor r = record r {
  status = UnitReservationStatus.convertida;
  converted_at = some now;
  converted_by_user_id = some actor.id;
}

-- `transitionAuditEntries` with `releasesUnit`
abbrev pub cancellation_audit : Actor → ℕ → UnitRow → List AuditEntry
cancellation_audit actor id unit =
    entry actor AuditAction.unit_reservation_cancelled EntityType.unit_reservation id
    ∷ (if is_reservada unit.status
        then entry actor AuditAction.update EntityType.unit unit.id ∷ []
        else [])

-- The callback of `cancel`.
unfoldable pub cancel_locked : ℕ → Actor → Text → UnitRow → ReservationRow → Action (Unit {0})
cancel_locked now actor reason unit reservation = do
  modify_db (set_reservation reservation.id (cancelled now actor reason))
  modify_db (λ db.
      if is_reservada unit.status then set_unit_status unit.id UnitStatus.disponivel db else db)
  record_many (cancellation_audit actor reservation.id unit)

-- The callback of `convert`.
unfoldable pub convert_locked : ℕ → Actor → UnitRow → ReservationRow → Action (Unit {0})
convert_locked now actor unit reservation = do
  modify_db (set_reservation reservation.id (converted now actor))
  record_one (
      entry actor AuditAction.unit_reservation_converted EntityType.unit_reservation reservation.id)

unfoldable pub cancel : ℕ → ℕ → Actor → Text → Action (Unit {0})
unfolding transition cancel_locked
cancel now id actor reason = transition now id actor (cancel_locked now actor reason)

unfoldable pub convert : ℕ → ℕ → Actor → Action (Unit {0})
unfolding transition convert_locked
convert now id actor = transition now id actor (convert_locked now actor)
