-- ===== src/Proposals/Acceptance.antt =====
-- Accepting a proposal and winning its opportunity: `accept` and `winOpportunity` of
-- src/proposals/proposals.service.ts.
use harpia_api.Prelude.{
  ℕ, ◌+◌, ◌*◌, Bool, true, false, ◌&&◌, ◌||◌, not, Option, none, some, List, [], ◌∷◌, ◌++◌, Text,
  leb, ◌==◌, same, or_else, if◌then◌else◌,
}
use harpia_api.Table.{find_first, find_many}
use harpia_api.Store.{
  UnitStatus, UnitReservationStatus, SalesProposalStatus, UnitRow, ReservationRow, ProposalRow,
  StageRow, OpportunityRow, Database, AuditEntry, AuditAction, EntityType, Actor, Action, Error,
  pure, or_raise, raise_if, gets, transaction, modify_db, record_many, is_ativa, is_reservada,
  is_disponivel, ◌>>=◌, ◌>>◌,
}
use harpia_api.Reservations.Expiry.{lock_unit, set_unit_status}
use harpia_api.Reservations.Requests.{
  entry, differs, insert_reservation, set_reservation, converted,
}
use harpia_api.Opportunities.Stage.{apply_stage_change}
use harpia_api.Proposals.Expiry.{lock_proposal, is_open, set_proposal, find_one}
use harpia_api.Proposals.Requests.{
  lock_optional_reservation, assert_current_and_valid, normalize_if_reserved,
}

-- `validateReservationForProposal`, and the guard on the unit of a proposal without a reservation
unfoldable pub validate_for_acceptance :
    ℕ → Option ReservationRow → ProposalRow → UnitRow → Action (Unit {0})
validate_for_acceptance now none p unit =
    raise_if (not (is_disponivel unit.status)) Error.unit_not_available
validate_for_acceptance now (some r) p unit = do
  raise_if (not (is_ativa r.status) || leb r.expires_at now) Error.reservation_not_active
  raise_if
      (not (r.unit_id == p.unit_id)
        || not (r.person_id == p.person_id)
        || not (same r.opportunity_id p.opportunity_id))
      Error.reservation_mismatch
  raise_if (not (is_reservada unit.status)) Error.unit_not_reserved

abbrev pub day_ms : ℕ
day_ms = 24 * 60 * 60 * 1000

-- "Transição criada automaticamente pelo aceite da proposta"
abbrev pub handoff_notes : Text
handoff_notes =
    84 ∷ 114 ∷ 97 ∷ 110 ∷ 115 ∷ 105 ∷ 231 ∷ 227 ∷ 111 ∷ 32 ∷ 99 ∷ 114 ∷ 105 ∷ 97 ∷ 100 ∷ 97 ∷ 32
    ∷ 97 ∷ 117 ∷ 116 ∷ 111 ∷ 109 ∷ 97 ∷ 116 ∷ 105 ∷ 99 ∷ 97 ∷ 109 ∷ 101 ∷ 110 ∷ 116 ∷ 101 ∷ 32 ∷ 112
    ∷ 101 ∷ 108 ∷ 111 ∷ 32 ∷ 97 ∷ 99 ∷ 101 ∷ 105 ∷ 116 ∷ 101 ∷ 32 ∷ 100 ∷ 97 ∷ 32 ∷ 112 ∷ 114 ∷ 111
    ∷ 112 ∷ 111 ∷ 115 ∷ 116 ∷ 97 ∷ []

abbrev pub handoff_reservation : ℕ → ℕ → Actor → UnitRow → ProposalRow → ReservationRow
handoff_reservation now id actor unit p = record {
  id = id;
  organization_id = actor.organization_id;
  unit_id = unit.id;
  person_id = p.person_id;
  opportunity_id = p.opportunity_id;
  created_by_user_id = actor.id;
  status = UnitReservationStatus.convertida;
  expires_at = now + day_ms;
  notes = some handoff_notes;
  cancelled_at = none;
  cancelled_by_user_id = none;
  cancellation_reason = none;
  converted_at = some now;
  converted_by_user_id = some actor.id;
}

-- The reservation that the accepted proposal goes on with: its own, now converted, or a new one
-- that holds the unit. Returns its identifier and the audit entries.
unfoldable pub take_unit :
    ℕ → ℕ → Actor → UnitRow → ProposalRow → Option ReservationRow → Action (ℕ × List AuditEntry)
unfolding insert_reservation
take_unit now handoff_id actor unit p none = do
  insert_reservation (handoff_reservation now handoff_id actor unit p)
  modify_db (set_unit_status unit.id UnitStatus.reservada)
  pure (
    handoff_id,
    entry actor AuditAction.update EntityType.unit unit.id
        ∷ entry actor AuditAction.unit_reservation_converted EntityType.unit_reservation handoff_id
        ∷ [],
  )
take_unit now handoff_id actor unit p (some r) = do
  modify_db (set_reservation r.id (converted now actor))
  pure (
    r.id,
    entry actor AuditAction.unit_reservation_converted EntityType.unit_reservation r.id ∷ [],
  )

abbrev pub opportunity_key : ℕ → ℕ → OpportunityRow → Bool
opportunity_key id org o = o.id == id && o.organization_id == org

unfoldable pub lock_opportunity : ℕ → ℕ → Action OpportunityRow
lock_opportunity id org = do
  or_raise (← gets (λ db. find_first (opportunity_key id org) db.opportunities))
      Error.opportunity_not_found

-- `orderBy: { position: 'asc' }`, the first row
unfoldable pub first_by_position : List StageRow → Option StageRow
first_by_position [] = none
first_by_position (s ∷ ss) = elim (first_by_position ss) [
  | none ↦ some s
  | some t ↦ if leb s.position t.position then some s else some t
]

abbrev pub won_stage : ℕ → ℕ → Database → Option StageRow
won_stage org pipeline_id db = first_by_position (
    find_many (λ s. s.organization_id == org && s.pipeline_id == pipeline_id && s.is_won) db.stages)

abbrev pub stage_is_lost : Option StageRow → Bool
stage_is_lost none = false
stage_is_lost (some s) = s.is_lost

abbrev pub stage_is_won : Option StageRow → Bool
stage_is_won none = false
stage_is_won (some s) = s.is_won

-- `winOpportunity` from the search for the won stage on
unfoldable pub move_to_won : ℕ → OpportunityRow → Actor → ProposalRow → Action (List AuditEntry)
unfolding first_by_position apply_stage_change
move_to_won now o actor p = do
  won ← or_raise (← gets (won_stage actor.organization_id o.pipeline_id)) Error.no_won_stage
  apply_stage_change now (record {
    actor = actor;
    opportunity = o;
    to_stage = record { id = won.id; is_won = true; is_lost = false };
    lost_reason = none;
    unit_id = some (or_else o.unit_id p.unit_id);
  })

unfoldable pub win_opportunity : ℕ → ℕ → Actor → ProposalRow → Action (List AuditEntry)
unfolding lock_opportunity move_to_won
win_opportunity now opportunity_id actor p = do
  o ← lock_opportunity opportunity_id actor.organization_id
  raise_if (not (o.person_id == p.person_id) || differs o.unit_id p.unit_id)
      Error.opportunity_mismatch
  stage ← gets (λ db. find_first (λ s. s.id == o.stage_id) db.stages)
  raise_if (stage_is_lost stage) Error.opportunity_lost
  if stage_is_won stage then pure [] else move_to_won now o actor p

unfoldable pub win_if_any : ℕ → Actor → ProposalRow → Action (List AuditEntry)
unfolding win_opportunity
win_if_any now actor p = elim p.opportunity_id [
  | none ↦ pure []
  | some id ↦ win_opportunity now id actor p
]

abbrev pub accepted : ℕ → Actor → ℕ → ProposalRow → ProposalRow
accepted now actor reservation_id p = record p {
  status = SalesProposalStatus.aceita;
  reservation_id = some reservation_id;
  accepted_at = some now;
  accepted_by_user_id = some actor.id;
}

-- The callback of `accept`, for the unit and the reservation that the proposal named before.
unfoldable pub accept_locked : ℕ → ℕ → ℕ → Actor → ProposalRow → Action (Unit {0})
unfolding lock_optional_reservation lock_proposal assert_current_and_valid validate_for_acceptance
    take_unit win_if_any
accept_locked now id handoff_id actor candidate = do
  unit ← lock_unit candidate.unit_id actor.organization_id
  reservation ← lock_optional_reservation candidate.reservation_id actor.organization_id
  proposal ← lock_proposal id actor.organization_id
  raise_if (not (is_open proposal.status)) Error.proposal_not_acceptable
  assert_current_and_valid now proposal
  validate_for_acceptance now reservation proposal unit
  taken ← take_unit now handoff_id actor unit proposal reservation
  won ← win_if_any now actor proposal
  modify_db (set_proposal proposal.id (accepted now actor taken.0))
  record_many (
      taken.1
      ++ won
      ++ entry actor AuditAction.proposal_accepted EntityType.sales_proposal proposal.id ∷ [])

unfoldable pub accept : ℕ → ℕ → ℕ → Actor → Action ProposalRow
unfolding lock_proposal normalize_if_reserved accept_locked find_one
accept now id handoff_id actor = do
  candidate ← lock_proposal id actor.organization_id
  normalize_if_reserved now actor.organization_id candidate.reservation_id candidate.unit_id
  transaction (accept_locked now id handoff_id actor candidate)
  find_one now id actor.organization_id
