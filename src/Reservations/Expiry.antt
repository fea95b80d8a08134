-- ===== src/Reservations/Expiry.antt =====
-- Locking a unit and expiring its reservations: `lockUnit`, `expireLockedUnit` and
-- `normalizeExpiredUnit` of src/reservations/reservations.service.ts.
use harpia_api.Prelude.{
  ℕ, Bool, false, ◌&&◌, ◌||◌, none, List, [], ◌∷◌, ◌++◌, map, leb, ◌==◌, if◌then◌else◌, some,
}
use harpia_api.Table.{find_first, find_many, modify}
use harpia_api.Store.{
  UnitStatus, UnitReservationStatus, UnitRow, ReservationRow, Database, AuditEntry, AuditAction,
  EntityType, Action, Error, pure, or_raise, gets, transaction, modify_db, record_many, is_ativa,
  is_reservada, ◌>>=◌, ◌>>◌,
}

-- `WHERE "id" = … AND "organizationId" = …` on the units
abbrev pub unit_key : ℕ → ℕ → UnitRow → Bool
unit_key id org u = u.id == id && u.organization_id == org

-- `… FOR UPDATE`; the row is locked until the transaction ends.
abbrev pub lock_unit : ℕ → ℕ → Action UnitRow
lock_unit id org = do
  or_raise (← gets (λ db. find_first (unit_key id org) db.units)) Error.unit_not_found

abbrev pub set_unit_status : ℕ → UnitStatus → Database → Database
set_unit_status id s db = record db {
  units = modify (λ u. u.id == id) (λ u. record u { status = s }) db.units;
}

-- An active reservation of the unit whose time has come.
abbrev pub is_overdue : ℕ → ℕ → ℕ → ReservationRow → Bool
is_overdue now org unit_id r =
    r.organization_id == org && r.unit_id == unit_id && is_ativa r.status && leb r.expires_at now

abbrev pub has_id : List ReservationRow → ℕ → Bool
has_id [] i = false
has_id (r ∷ rs) i = i == r.id || has_id rs i

abbrev pub expire : List ReservationRow → Database → Database
expire expired db = record db {
  reservations =
      modify (λ r. has_id expired r.id) (λ r. record r { status = UnitReservationStatus.expirada })
        db.reservations;
}

abbrev pub expiry_audit : UnitRow → ℕ → List ReservationRow → List AuditEntry
expiry_audit unit org expired =
    map
      (λ r. record {
        organization_id = org;
        actor_user_id = none;
        action = AuditAction.unit_reservation_expired;
        entity_type = EntityType.unit_reservation;
        entity_id = some r.id;
      })
      expired
    ++ (if is_reservada unit.status
        then record {
          organization_id = org;
          actor_user_id = none;
          action = AuditAction.update;
          entity_type = EntityType.unit;
          entity_id = some unit.id;
        }
          ∷ []
        else [])

-- The status of the unit once its overdue reservations are gone.
abbrev pub released : UnitStatus → UnitStatus
released UnitStatus.reservada = UnitStatus.disponivel
released s = s

unfoldable pub expire_rows : List ReservationRow → UnitRow → ℕ → Action UnitStatus
expire_rows [] unit org = pure unit.status
expire_rows (e ∷ es) unit org = do
  modify_db (expire (e ∷ es))
  modify_db (λ db.
      if is_reservada unit.status then set_unit_status unit.id UnitStatus.disponivel db else db)
  record_many (expiry_audit unit org (e ∷ es))
  pure (released unit.status)

-- `expireLockedUnit`: returns the status that the unit is left with.
unfoldable pub expire_locked_unit : ℕ → UnitRow → ℕ → Action UnitStatus
unfolding expire_rows
expire_locked_unit now unit org db =
    expire_rows (find_many (is_overdue now org unit.id) db.reservations) unit org db

-- `normalizeUnit`, `normalizeExpiredUnit`
unfoldable pub normalize_unit : ℕ → ℕ → ℕ → Action UnitStatus
unfolding expire_locked_unit
normalize_unit now org unit_id =
    transaction (do unit ← lock_unit unit_id org; expire_locked_unit now unit org)
