-- ===== src/Sales/Winning.antt =====
-- What a sale does to the reservation and the opportunity of its proposal: `ensureOpportunityWon` of
-- src/sales/sales.service.ts.
use harpia_api.Prelude.{
  ℕ, Bool, true, false, ◌||◌, not, Option, none, some, List, [], ◌∷◌, ◌==◌, if◌then◌else◌, is_value,
}
use harpia_api.Table.{find_first, modify}
use harpia_api.Store.{
  UnitRow, ReservationRow, OpportunityRow, ProposalRow, Database, AuditEntry, AuditAction,
  EntityType, Actor, Action, Error, pure, or_raise, raise_if, gets, modify_db, ◌>>=◌, ◌>>◌,
}
use harpia_api.Reservations.Requests.{entry, differs, set_reservation, converted}
use harpia_api.Opportunities.Stage.{apply_stage_change}
use harpia_api.Proposals.Acceptance.{
  lock_opportunity, won_stage, stage_is_lost, stage_is_won, first_by_position,
}

unfoldable pub convert_if_active : Bool → ℕ → Actor → ReservationRow → Action (List AuditEntry)
convert_if_active false now actor r = pure []
convert_if_active true now actor r = do
  modify_db (set_reservation r.id (converted now actor))
  pure (entry actor AuditAction.unit_reservation_converted EntityType.unit_reservation r.id ∷ [])

abbrev pub set_opportunity_unit : ℕ → ℕ → Database → Database
set_opportunity_unit id unit_id db = record db {
  opportunities =
      modify (λ o. o.id == id) (λ o. record o { unit_id = some unit_id }) db.opportunities;
}

-- An opportunity that is won already gets the unit where it has none.
unfoldable pub keep_won : Option ℕ → ℕ → ℕ → Action (List AuditEntry)
keep_won (some u) opportunity_id unit_id = pure []
keep_won none opportunity_id unit_id = do
  modify_db (set_opportunity_unit opportunity_id unit_id)
  pure []

unfoldable pub win_for_sale : ℕ → OpportunityRow → UnitRow → Actor → Action (List AuditEntry)
unfolding first_by_position apply_stage_change
win_for_sale now o unit actor = do
  won ← or_raise (← gets (won_stage actor.organization_id o.pipeline_id)) Error.no_won_stage
  apply_stage_change now (record {
    actor = actor;
    opportunity = o;
    to_stage = record { id = won.id; is_won = true; is_lost = false };
    lost_reason = none;
    unit_id = some unit.id;
  })

-- `ensureOpportunityWon`
unfoldable pub ensure_opportunity_won :
    ℕ → ℕ → ProposalRow → UnitRow → Actor → Action (List AuditEntry)
unfolding lock_opportunity keep_won win_for_sale
ensure_opportunity_won now opportunity_id p unit actor = do
  o ← lock_opportunity opportunity_id actor.organization_id
  raise_if
      (not (o.person_id == p.person_id)
        || not (is_value o.development_id unit.development_id)
        || differs o.unit_id unit.id)
      Error.opportunity_mismatch
  stage ← gets (λ db. find_first (λ s. s.id == o.stage_id) db.stages)
  raise_if (stage_is_lost stage) Error.opportunity_lost
  if stage_is_won stage then keep_won o.unit_id o.id unit.id else win_for_sale now o unit actor

unfoldable pub ensure_won_if_any : ℕ → ProposalRow → UnitRow → Actor → Action (List AuditEntry)
unfolding ensure_opportunity_won
ensure_won_if_any now p unit actor = elim p.opportunity_id [
  | none ↦ pure []
  | some id ↦ ensure_opportunity_won now id p unit actor
]
