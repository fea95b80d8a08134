-- ===== src/UnitHolds/Reservations/Expiry.antt =====
-- `expireLockedUnit` of src/reservations/reservations.service.ts and the commercial invariant.
use harpia_api.Prelude.{
  ◌∙◌, sym, refl, ℕ, ◌+◌, ◌≤◌, ◌≡◌, true, false, ◌&&◌, some, List, [], ◌∷◌, arith, ◌==◌, Bool-cases,
  inl, inr,
}
use harpia_api.Table.{
  find_first-find_many, modify_none, find_first, find_many, count_by, find_first_holds,
  count_by-find_first, count_by-modify, count_by-modify_le, count_by_none,
}
use mathlib.Core.Path.{subst}
use harpia_api.Store.{
  ◌>>=◌, Ensures-bind, Action, Ensures-get, Ensures-or_raise, Ensures, Ensures-write,
  Ensures-record_many, Ensures-pure, UnitStatus, UnitReservationStatus, UnitRow, ReservationRow,
  Database, is_ativa, is_reservada,
}
use harpia_api.Reservations.Expiry.{
  lock_unit, released, unit_key, has_id, is_overdue, expire, expire_rows, expire_locked_unit,
}
use harpia_api.UnitHolds.Accounts.{IsConsistent, active_on}
use harpia_api.UnitHolds.Balance.{release, shrink}
use harpia_api.UnitHolds.Status.{locked-written, locked_id, written}

-- No unit has more active reservations after `expire`.
active_on-expire :
    (es : List ReservationRow) (u : ℕ) (db : Database)
    → active_on u (expire es db).reservations ≤ active_on u db.reservations
active_on-expire es u db =
    count_by-modify_le (λ r. has_id es r.id) (λ r. r.unit_id == u && is_ativa r.status)
      (λ r. record r { status = UnitReservationStatus.expirada }) db.reservations
      (λ r a b. ground arith)

-- An active reservation among the expired ones is one fewer.
active_on-expire_lt :
    (es : List ReservationRow) (u : ℕ) (db : Database)
    → 1 ≤ count_by (λ r. has_id es r.id && (r.unit_id == u && is_ativa r.status)) db.reservations
    → active_on u (expire es db).reservations + 1 ≤ active_on u db.reservations
active_on-expire_lt es u db h =
    let p = λ (r : ReservationRow). has_id es r.id in
    let q = λ (r : ReservationRow). r.unit_id == u && is_ativa r.status in
    let f = λ (r : ReservationRow). record r { status = UnitReservationStatus.expirada } in
    omega (
      arith,
      count_by-modify p q f db.reservations,
      count_by_none (λ r. p r && q (f r)) db.reservations (λ r. ground arith),
      h,
    )

-- What a transaction knows of the unit after `expireLockedUnit` has returned the status `s`.
pub record IsExpired (now org : ℕ) (unit : UnitRow) (db : Database) (s : UnitStatus)
    (db' : Database) : Type 0 where
  pub consistent : IsConsistent db'
  pub locked : find_first (unit_key unit.id org) db'.units ≡ some (record unit { status = s })
  pub proposals : db'.proposals ≡ db.proposals
  pub rows :
      db'.reservations
      ≡ (expire (find_many (is_overdue now org unit.id) db.reservations) db).reservations

expire_rows-IsExpired :
    {E : Database → Type 0} (now org : ℕ) (unit : UnitRow) (db : Database)
    (es : List ReservationRow)
    → IsConsistent db
    → find_first (unit_key unit.id org) db.units ≡ some unit
    → find_many (is_overdue now org unit.id) db.reservations ≡ es
    → Ensures (IsExpired now org unit db) E (expire_rows es unit org db)
unfolding expire_rows
expire_rows-IsExpired now org unit db [] valid found h = Ensures-pure unit.status db (record {
  consistent = valid;
  locked = found;
  proposals = refl;
  rows = rw h (
      sym (
        modify_none (λ r. false) (λ r. record r { status = UnitReservationStatus.expirada })
          db.reservations (λ r. refl)));
})
expire_rows-IsExpired now org unit db (e ∷ es) valid found h =
    let first = find_first-find_many (is_overdue now org unit.id) db.reservations e es h in
    let overdue = find_first_holds (is_overdue now org unit.id) db.reservations e first in
    let hit =
      count_by-find_first (is_overdue now org unit.id)
        (λ r. has_id (e ∷ es) r.id && (r.unit_id == unit.id && is_ativa r.status)) db.reservations e
        first (ground (arith, overdue)) in
    elim (Bool-cases (is_reservada unit.status)) [
      | inl r ↦ Ensures-write _ _ _ (
          Ensures-write _ _ _ (
            Ensures-record_many _ _ _ (
              Ensures-pure _ _ (
                rw r (record {
                  consistent =
                      release unit.id org valid found r
                        (active_on-expire_lt (e ∷ es) unit.id db hit)
                        (λ u. active_on-expire (e ∷ es) u db);
                  locked = freed r;
                  proposals = refl;
                  rows = rw h refl;
                })))))
      | inr r ↦ Ensures-write _ _ _ (
          Ensures-write _ _ _ (
            Ensures-record_many _ _ _ (
              Ensures-pure _ _ (
                rw r (record {
                  consistent = shrink valid (λ u. active_on-expire (e ∷ es) u db);
                  locked = kept r;
                  proposals = refl;
                  rows = rw h refl;
                })))))
    ]
  where
    freed :
        is_reservada unit.status ≡ true
        → find_first (unit_key unit.id org) (written unit.id UnitStatus.disponivel db.units)
          ≡ some (record unit { status = released unit.status })
    freed r = locked-written unit.id org UnitStatus.disponivel db.units unit found ∙ ground arith

    kept :
        is_reservada unit.status ≡ false
        → find_first (unit_key unit.id org) db.units
          ≡ some (record unit { status = released unit.status })
    kept r = found ∙ ground arith

pub Ensures-expire :
    {E : Database → Type 0} (now org : ℕ) (unit : UnitRow) (db : Database)
    → IsConsistent db
    → find_first (unit_key unit.id org) db.units ≡ some unit
    → Ensures (IsExpired now org unit db) E (expire_locked_unit now unit org db)
unfolding expire_locked_unit
Ensures-expire now org unit db valid found =
    expire_rows-IsExpired now org unit db (find_many (is_overdue now org unit.id) db.reservations)
      valid found refl

-- A transaction that locks a unit first.
pub Ensures-lock_unit :
    {B : Type 0} {Q : B → Database → Type 0} {E : Database → Type 0} (id org : ℕ)
    (f : UnitRow → Action B) (db : Database)
    → ((u : UnitRow)
        → find_first (unit_key id org) db.units ≡ some u
        → find_first (unit_key u.id org) db.units ≡ some u
        → Ensures Q E (f u db))
    → E db
    → Ensures Q E ((lock_unit id org >>= f) db)
Ensures-lock_unit id org f db h x =
    Ensures-bind (λ u d. (d ≡ db) × (find_first (unit_key id org) db.units ≡ some u)) _ _ _
      (Ensures-get _ _ _ (Ensures-or_raise _ _ _ (λ u e. (refl, e)) x))
      (λ u d (same, e). rw same (
        h u e (
          subst (λ k. find_first (unit_key k org) db.units ≡ some u)
            (sym (locked_id id org db.units e)) e)))
