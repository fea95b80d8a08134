-- ===== src/Proposals/Requests.antt =====
-- Drafting, revising, sending and rejecting a proposal: `create`, `createVersion`, `send` and
-- `reject` of src/proposals/proposals.service.ts.
use harpia_api.Prelude.{
  ℕ, ◌+◌, Bool, true, false, ◌&&◌, ◌||◌, not, Option, none, some, List, [], ◌∷◌, ◌++◌, Text, leb,
  ◌==◌, same, is_some,
}
use harpia_api.Prelude.Int.{ℤ, pos}
use harpia_api.Table.{find_first}
use harpia_api.Store.{
  SalesProposalStatus, UnitRow, ReservationRow, ProposalRow, ProposalVersionRow, UnitPriceRow,
  Database, AuditAction, EntityType, Actor, Action, Error, pure, or_raise, raise_if, gets,
  transaction, modify_db, record_many, record_one, is_ativa, is_reservada, is_disponivel, ◌>>=◌,
  ◌>>◌,
}
use harpia_api.Reservations.Expiry.{lock_unit, normalize_unit}
use harpia_api.Reservations.Requests.{check_opportunity, entry, reservation_key}
use harpia_api.Proposals.Pricing.{ConditionDto, Pricing, validate_pricing, condition_create_data}
use harpia_api.Proposals.Expiry.{lock_proposal, is_open, set_proposal, find_one, normalize_expired}

-- CreateProposalDto
pub record CreateProposalDto : Type 0 where
  pub person_id : ℕ
  pub unit_id : ℕ
  pub opportunity_id : Option ℕ
  pub reservation_id : Option ℕ
  pub discount : ℤ
  pub valid_until : Option ℕ
  pub conditions : List ConditionDto

-- CreateProposalVersionDto
pub record CreateProposalVersionDto : Type 0 where
  pub discount : ℤ
  pub valid_until : Option ℕ
  pub conditions : List ConditionDto

-- `futureDateOrNull` throws for a date that is not after now.
abbrev pub is_not_future : ℕ → Option ℕ → Bool
is_not_future now none = false
is_not_future now (some t) = leb t now

unfoldable pub lock_optional_reservation : Option ℕ → ℕ → Action (Option ReservationRow)
lock_optional_reservation none org = pure none
lock_optional_reservation (some id) org = do
  r ←
      or_raise (← gets (λ db. find_first (reservation_key id org) db.reservations))
        Error.reservation_not_found
  pure (some r)

-- `validateReservation`, and the guard on the unit of a proposal without a reservation
unfoldable pub validate_reservation :
    ℕ → Option ReservationRow → CreateProposalDto → UnitRow → Action (Unit {0})
validate_reservation now none dto unit =
    raise_if (not (is_disponivel unit.status)) Error.unit_not_available
validate_reservation now (some r) dto unit = do
  raise_if (not (is_ativa r.status) || leb r.expires_at now) Error.reservation_not_active
  raise_if
      (not (r.unit_id == unit.id)
        || not (r.person_id == dto.person_id)
        || not (same r.opportunity_id dto.opportunity_id))
      Error.reservation_mismatch
  raise_if (not (is_reservada unit.status)) Error.unit_not_reserved

-- `findActivePrice`; the price rows stand latest first, as the query orders them.
unfoldable pub find_active_price : ℕ → ℕ → Action UnitPriceRow
find_active_price org unit_id = do
  or_raise
      (← gets (λ db.
        find_first (λ p. p.organization_id == org && p.unit_id == unit_id && p.price_table_active)
          db.unit_prices))
      Error.no_active_price

abbrev pub new_proposal : ℕ → ℕ → Actor → UnitRow → CreateProposalDto → ProposalRow
new_proposal id version_id actor unit dto = record {
  id = id;
  organization_id = actor.organization_id;
  opportunity_id = dto.opportunity_id;
  reservation_id = dto.reservation_id;
  person_id = dto.person_id;
  unit_id = unit.id;
  status = SalesProposalStatus.rascunho;
  current_version_id = some version_id;
  valid_until = dto.valid_until;
  created_by_user_id = actor.id;
  sent_at = none;
  sent_by_user_id = none;
  accepted_at = none;
  accepted_by_user_id = none;
  rejected_at = none;
  rejected_by_user_id = none;
  rejection_reason = none;
  converted_to_sale_at = none;
  converted_to_sale_by_user_id = none;
}

abbrev pub new_version :
    ℕ → ℕ → ℕ → ℕ → Actor → Option ℕ → Pricing → List ConditionDto → ProposalVersionRow
new_version id proposal_id version table_id actor valid_until pricing conditions = record {
  id = id;
  organization_id = actor.organization_id;
  proposal_id = proposal_id;
  version = version;
  base_price = pricing.base_price;
  discount = pricing.discount;
  final_price = pricing.final_price;
  down_payment = pricing.down_payment;
  valid_until = valid_until;
  source_price_table_id = table_id;
  created_by_user_id = actor.id;
  conditions = condition_create_data conditions;
}

abbrev pub insert_version : ProposalVersionRow → Database → Database
insert_version v db = record db { proposal_versions = db.proposal_versions ++ v ∷ [] }

abbrev pub insert_proposal : ProposalRow → Database → Database
insert_proposal p db = record db { proposals = db.proposals ++ p ∷ [] }

-- The callback of `create`.
unfoldable pub draft : ℕ → ℕ → ℕ → Actor → CreateProposalDto → Action (Unit {0})
unfolding lock_optional_reservation validate_reservation find_active_price check_opportunity
    validate_pricing
draft now id version_id actor dto = do
  unit ← lock_unit dto.unit_id actor.organization_id
  reservation ← lock_optional_reservation dto.reservation_id actor.organization_id
  validate_reservation now reservation dto unit
  or_raise
      (← gets (λ db.
        find_first (λ p. p.id == dto.person_id && p.organization_id == actor.organization_id)
          db.people))
      Error.invalid_person
  check_opportunity dto.opportunity_id actor.organization_id dto.person_id unit
  price ← find_active_price actor.organization_id unit.id
  pricing ← validate_pricing price.value dto.discount dto.conditions
  modify_db (insert_proposal (new_proposal id version_id actor unit dto))
  modify_db (
      insert_version (
        new_version version_id id 1 price.price_table_id actor dto.valid_until pricing
          dto.conditions))
  record_many (
      entry actor AuditAction.proposal_created EntityType.sales_proposal id
      ∷ entry actor AuditAction.proposal_version_created EntityType.proposal_version version_id
      ∷ [])

unfoldable pub normalize_if_reserved : ℕ → ℕ → Option ℕ → ℕ → Action (Unit {0})
unfolding normalize_unit
normalize_if_reserved now org none unit_id = pure tt
normalize_if_reserved now org (some r) unit_id = normalize_unit now org unit_id >> pure tt

-- `create`; `id` and `version_id` are the identifiers that the database gives the new rows.
unfoldable pub create : ℕ → ℕ → ℕ → Actor → CreateProposalDto → Action ProposalRow
unfolding draft normalize_if_reserved find_one
create now id version_id actor dto = do
  raise_if (is_not_future now dto.valid_until) Error.validity_in_past
  normalize_if_reserved now actor.organization_id dto.reservation_id dto.unit_id
  transaction (draft now id version_id actor dto)
  find_one now id actor.organization_id

-- EDITABLE_STATUSES
abbrev pub is_editable : SalesProposalStatus → Bool
is_editable SalesProposalStatus.rascunho = true
is_editable s = is_open s

abbrev pub revised_status : SalesProposalStatus → SalesProposalStatus
revised_status SalesProposalStatus.rascunho = SalesProposalStatus.rascunho
revised_status s = SalesProposalStatus.em_negociacao

abbrev pub revised : ℕ → Option ℕ → SalesProposalStatus → ProposalRow → ProposalRow
revised version_id valid_until status p = record p {
  current_version_id = some version_id;
  valid_until = valid_until;
  status = revised_status status;
}

-- The callback of `createVersion`.
unfoldable pub revise : ℕ → ℕ → Actor → CreateProposalVersionDto → Action (Unit {0})
unfolding lock_proposal validate_pricing
revise id version_id actor dto = do
  proposal ← lock_proposal id actor.organization_id
  raise_if (not (is_editable proposal.status)) Error.proposal_not_editable
  current_id ← or_raise proposal.current_version_id Error.no_current_version
  current ←
      or_raise
        (← gets (λ db.
          find_first
            (λ v.
              v.id == current_id
              && v.proposal_id == proposal.id
              && v.organization_id == actor.organization_id)
            db.proposal_versions))
        Error.version_missing
  pricing ← validate_pricing (pos current.base_price) dto.discount dto.conditions
  modify_db (
      insert_version (
        new_version version_id proposal.id (current.version + 1) current.source_price_table_id actor
          dto.valid_until pricing dto.conditions))
  modify_db (set_proposal proposal.id (revised version_id dto.valid_until proposal.status))
  record_one
      (entry actor AuditAction.proposal_version_created EntityType.proposal_version version_id)

unfoldable pub create_version : ℕ → ℕ → ℕ → Actor → CreateProposalVersionDto → Action ProposalRow
unfolding revise find_one
create_version now id version_id actor dto = do
  raise_if (is_not_future now dto.valid_until) Error.validity_in_past
  transaction (revise id version_id actor dto)
  find_one now id actor.organization_id

-- `assertCurrentAndValid`
unfoldable pub assert_current_and_valid : ℕ → ProposalRow → Action (Unit {0})
assert_current_and_valid now p = do
  raise_if (not (is_some p.current_version_id)) Error.no_current_version
  raise_if (is_not_future now p.valid_until) Error.proposal_expired

abbrev pub is_sendable : SalesProposalStatus → Bool
is_sendable SalesProposalStatus.rascunho = true
is_sendable SalesProposalStatus.em_negociacao = true
is_sendable _ = false

abbrev pub sent : ℕ → Actor → ProposalRow → ProposalRow
sent now actor p = record p {
  status = SalesProposalStatus.enviada;
  sent_at = some now;
  sent_by_user_id = some actor.id;
}

unfoldable pub send : ℕ → ℕ → Actor → Action ProposalRow
unfolding normalize_expired lock_proposal assert_current_and_valid find_one
send now id actor = do
  normalize_expired now actor.organization_id (some id)
  transaction (do
    proposal ← lock_proposal id actor.organization_id
    raise_if (not (is_sendable proposal.status)) Error.proposal_not_sendable
    assert_current_and_valid now proposal
    modify_db (set_proposal id (sent now actor))
    record_one (entry actor AuditAction.proposal_sent EntityType.sales_proposal id))
  find_one now id actor.organization_id

abbrev pub rejected : ℕ → Actor → Text → ProposalRow → ProposalRow
rejected now actor reason p = record p {
  status = SalesProposalStatus.recusada;
  rejected_at = some now;
  rejected_by_user_id = some actor.id;
  rejection_reason = some reason;
}

unfoldable pub reject : ℕ → ℕ → Actor → Text → Action ProposalRow
unfolding normalize_expired lock_proposal find_one
reject now id actor reason = do
  normalize_expired now actor.organization_id (some id)
  transaction (do
    proposal ← lock_proposal id actor.organization_id
    raise_if (not (is_open proposal.status)) Error.proposal_not_rejectable
    modify_db (set_proposal id (rejected now actor reason))
    record_one (entry actor AuditAction.proposal_rejected EntityType.sales_proposal id))
  find_one now id actor.organization_id
