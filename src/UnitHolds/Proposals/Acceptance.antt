-- ===== src/UnitHolds/Proposals/Acceptance.antt =====
-- `accept` of src/proposals/proposals.service.ts and the commercial invariant.
use mathlib.Core.Option.{some-injective}
use harpia_api.Prelude.{ℕ, ◌≡◌, refl, sym, ap, ◌∙◌, true, Option, none, some, List, arith, ◌==◌}
use harpia_api.Table.{find_first, modify}
use harpia_api.Store.{
  AuditEntry, UnitRow, ReservationRow, ProposalRow, SaleRow, ReceivableRow, PaymentRow, Database,
  Actor, Action, state_of, is_ativa, ◌>>=◌, ◌>>◌, Ensures, state_of-Ensures, Ensures-get,
  Ensures-row, Ensures-then, Ensures-bind, Ensures-transaction, Ensures-write, Ensures-pure,
  Ensures-guard, Ensures-guarded, Ensures-recorded_many, Ensures-weaken,
}
use harpia_api.Reservations.Expiry.{unit_key, normalize_unit}
use harpia_api.Reservations.Requests.{reservation_key}
use harpia_api.Proposals.Expiry.{proposal_key}
use harpia_api.Proposals.Requests.{lock_optional_reservation, normalize_if_reserved}
use harpia_api.Proposals.Acceptance.{
  accept, accept_locked, accepted, take_unit, validate_for_acceptance,
}
use harpia_api.UnitHolds.Accounts.{IsBalanced, IsConsistent}
use harpia_api.UnitHolds.Status.{locked_id}
use harpia_api.UnitHolds.Reservations.Expiry.{Ensures-expire, Ensures-lock_unit}
use harpia_api.UnitHolds.Reservations.Create.{Ensures-insert}
use harpia_api.UnitHolds.Proposals.Counts.{take_available, take_reserved}
use harpia_api.UnitHolds.Proposals.Winning.{win_if_any-Keeps}
use harpia_api.UnitHolds.Proposals.Expiry.{Ensures-assert, Ensures-lock_proposal, find_one-Ensures}

-- What the reservation that a proposal names is known by once it is locked.
abbrev pub IsHeld : ℕ → Database → Option ReservationRow → Type 0
IsHeld org db none = Unit {0}
IsHeld org db (some r) = (id : ℕ) × (find_first (reservation_key id org) db.reservations ≡ some r)

pub lock_optional-Ensures :
    {E : Database → Type 0} (id : Option ℕ) (org : ℕ) (db : Database)
    → E db
    → Ensures (λ o d. (d ≡ db) × IsHeld org db o) E (lock_optional_reservation id org db)
unfolding lock_optional_reservation
lock_optional-Ensures none org db x = Ensures-pure _ _ (refl, tt)
lock_optional-Ensures (some id) org db x =
    Ensures-get _ _ _ (Ensures-row _ _ _ _ (λ r e. Ensures-pure _ _ (refl, (id, e))) x)

-- The tables once the unit is taken, as the update of the proposal will find them.
abbrev IsTaken :
    ℕ
    → Actor
    → ProposalRow
    → ℕ
    → List UnitRow
    → List ReservationRow
    → List ProposalRow
    → List SaleRow
    → List ReceivableRow
    → List PaymentRow
    → Type 0
IsTaken now actor p taken us rs ps ss cs ys =
    IsBalanced us rs (modify (λ x. x.id == p.id) (accepted now actor taken) ps) ss

module _ (now id handoff_id : ℕ) (actor : Actor) (unit : UnitRow) (p : ProposalRow) (db : Database)
    (valid : IsConsistent db)
    (locked : find_first (unit_key unit.id actor.organization_id) db.units ≡ some unit)
    (found : find_first (proposal_key id actor.organization_id) db.proposals ≡ some p)
    (same : unit.id ≡ p.unit_id) where
  -- The guards on the reservation and the unit, then the taking of the unit.
  take-Ensures :
      {B : Type 0} {Q : B → Database → Type 0} (o : Option ReservationRow)
      (f : ℕ × List AuditEntry → Action B)
      → IsHeld actor.organization_id db o
      → ((taken : ℕ × List AuditEntry) (d : Database)
          → IsTaken now actor p taken.0 d.units d.reservations d.proposals d.sales d.receivables
              d.payments
          → Ensures Q (λ _. Unit {0}) (f taken d))
      → Ensures Q
          (λ _. Unit {0})
          ((validate_for_acceptance now o p unit >> (take_unit now handoff_id actor unit p o >>= f))
            db)
  unfolding validate_for_acceptance take_unit
  take-Ensures none f held k =
      Ensures-guard _ _ _ _
        (λ free.
          Ensures-bind
            (λ taken d.
              IsTaken now actor p taken.0 d.units d.reservations d.proposals d.sales d.receivables
                d.payments)
            _ _ _
            (Ensures-insert _ _ _
              (Ensures-write _ _ _ (
                Ensures-pure _ _ (
                  take_available now actor handoff_id id actor.organization_id db.proposals p
                    (valid.proposal_ids p.id) found _ valid locked same (ground arith) refl)))
              tt)
            k)
        tt
  take-Ensures (some r) f (key, held) k =
      Ensures-then (λ _ d. (d ≡ db) × ((is_ativa r.status ≡ true) × (r.unit_id ≡ p.unit_id))) _ _ _
        (Ensures-guard _ _ _ _
          (λ active.
            Ensures-guard _ _ _ _
              (λ matching. Ensures-guarded _ _ _ (λ _. (refl, (ground arith, ground arith))) tt) tt)
          tt)
        (λ _ d (e, (active, on_unit)). rw e (
          Ensures-bind
            (λ taken d.
              IsTaken now actor p taken.0 d.units d.reservations d.proposals d.sales d.receivables
                d.payments)
            _ _ _
            (Ensures-write _ _ _ (
              Ensures-pure _ _ (
                take_reserved now actor r.id id actor.organization_id db.proposals p
                  (valid.proposal_ids p.id) found key r valid held active on_unit)))
            k))

accept_locked-Ensures :
    (now id handoff_id : ℕ) (actor : Actor) (c : ProposalRow) (db : Database)
    → IsConsistent db
    → find_first (proposal_key id actor.organization_id) db.proposals ≡ some c
    → Ensures (λ _. IsConsistent) (λ _. Unit {0}) (accept_locked now id handoff_id actor c db)
unfolding accept_locked
accept_locked-Ensures now id handoff_id actor c db valid named =
    Ensures-lock_unit _ _ _ _
      (λ unit at_unit locked.
        Ensures-bind _ _ _ _ (lock_optional-Ensures c.reservation_id actor.organization_id db tt)
          (λ o d (same, held). rw same (
            Ensures-lock_proposal _ _ _ _
              (λ p found.
                Ensures-guard _ _ _ _
                  (λ _.
                    Ensures-assert now p _ _
                      (take-Ensures now id handoff_id actor unit p db valid locked found
                        (locked_id c.unit_id actor.organization_id db.units at_unit
                          ∙ ap (λ (x : ProposalRow). x.unit_id)
                              (some-injective _ _ (sym named ∙ found)))
                        o _ held
                        (λ taken d' known.
                          Ensures-bind _ _ _ _
                            (win_if_any-Keeps (IsTaken now actor p taken.0) now actor p d' known)
                            (λ won d'' kept. Ensures-write _ _ _ (Ensures-recorded_many _ _ kept))))
                      tt)
                  tt)
              tt)))
      tt

-- Before the transaction the overdue reservations of the unit expire; the proposals stay.
pub normalize_if_reserved-Ensures :
    (now org : ℕ) (reservation_id : Option ℕ) (unit_id : ℕ) (db : Database)
    → IsConsistent db
    → Ensures
        (λ _ d. IsConsistent d × (d.proposals ≡ db.proposals))
        IsConsistent
        (normalize_if_reserved now org reservation_id unit_id db)
unfolding normalize_if_reserved normalize_unit
normalize_if_reserved-Ensures now org none unit_id db valid = Ensures-pure _ _ (valid, refl)
normalize_if_reserved-Ensures now org (some r) unit_id db valid =
    Ensures-then (λ _ d. IsConsistent d × (d.proposals ≡ db.proposals)) _ _ _
      (Ensures-transaction _ _
        (Ensures-lock_unit _ _ _ _
          (λ unit _ found.
            Ensures-weaken _ (λ s d known. (known.consistent, known.proposals))
              (Ensures-expire now org unit db valid found))
          tt)
        valid)
      (λ _ d known. Ensures-pure _ _ known)

-- Whatever becomes of a request to accept a proposal, the tables stay balanced: its unit passes from
-- its active reservation, or from being available, to the accepted proposal.
pub accept-IsConsistent :
    (now id handoff_id : ℕ) (actor : Actor) (db : Database)
    → IsConsistent db
    → IsConsistent (state_of (accept now id handoff_id actor db))
unfolding accept
accept-IsConsistent now id handoff_id actor db valid = state_of-Ensures IsConsistent _ (
    Ensures-lock_proposal _ _ _ _
      (λ c named.
        Ensures-then _ _ _ _
          (normalize_if_reserved-Ensures now actor.organization_id c.reservation_id c.unit_id db
            valid)
          (λ _ d (known, same).
            Ensures-then (λ _. IsConsistent) _ _ _
              (Ensures-transaction _ _
                (accept_locked-Ensures now id handoff_id actor c d known (rw same named)) known)
              (λ _ d'. find_one-Ensures now id actor.organization_id d')))
      valid)
