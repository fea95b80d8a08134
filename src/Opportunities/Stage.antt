-- ===== src/Opportunities/Stage.antt =====
-- `normalizeLostReason` and `applyOpportunityStageChange` of src/crm/opportunity-stage.ts. Texts are
-- lists of code points; `trim` removes JavaScript's white space and line terminators.
use harpia_api.Prelude.{
  ℕ, Bool, ◌&&◌, ◌||◌, not, Option, none, some, List, [], ◌∷◌, ◌++◌, leb, ◌==◌, if◌then◌else◌, Text,
  take, is_some,
}
use harpia_api.Table.{modify}
use harpia_api.Store.{
  OpportunityRow, StageHistoryRow, AuditEntry, AuditAction, EntityType, Action, Error, pure,
  raise_if, modify_db, ◌>>◌, Actor,
}
use harpia_api.Reservations.Requests.{entry}

abbrev pub is_blank : ℕ → Bool
is_blank c =
    (leb 9 c && leb c 13)
    || c == 32
    || c == 160
    || c == 0x1680
    || (leb 0x2000 c && leb c 0x200a)
    || c == 0x2028
    || c == 0x2029
    || c == 0x202f
    || c == 0x205f
    || c == 0x3000
    || c == 0xfeff

unfoldable pub trim_start : Text → Text
trim_start [] = []
trim_start (c ∷ s) = if is_blank c then trim_start s else c ∷ s

abbrev pub attach : ℕ → Text → Text
attach c [] = if is_blank c then [] else c ∷ []
attach c (d ∷ s) = c ∷ d ∷ s

unfoldable pub trim_end : Text → Text
trim_end [] = []
trim_end (c ∷ s) = attach c (trim_end s)

-- `value.trim()`
unfoldable pub trim : Text → Text
unfolding trim_start trim_end
trim s = trim_end (trim_start s)

-- MAX_LOST_REASON_LENGTH
abbrev pub max_lost_reason_length : ℕ
max_lost_reason_length = 500

abbrev pub capped : Text → Option Text
capped [] = none
capped (c ∷ s) = some (take max_lost_reason_length (c ∷ s))

unfoldable pub normalize_lost_reason : Option Text → Option Text
unfolding trim
normalize_lost_reason none = none
normalize_lost_reason (some value) = capped (trim value)

-- StageChangeTarget
pub record StageChangeTarget : Type 0 where
  pub id : ℕ
  pub is_won : Bool
  pub is_lost : Bool

-- OpportunityStageChange. Of `additionalData` the callers give at most the unit.
pub record StageChange : Type 0 where
  pub actor : Actor
  pub opportunity : OpportunityRow
  pub to_stage : StageChangeTarget
  pub lost_reason : Option Text
  pub unit_id : Option ℕ

abbrev pub or_given : Option ℕ → Option ℕ → Option ℕ
or_given none old = old
or_given (some u) old = some u

abbrev pub moved : ℕ → StageChange → Option Text → OpportunityRow → OpportunityRow
moved now change reason o = record o {
  unit_id = or_given change.unit_id o.unit_id;
  stage_id = change.to_stage.id;
  stage_entered_at = now;
  lost_reason = reason;
}

abbrev pub stage_history_row : StageChange → Option Text → StageHistoryRow
stage_history_row change reason = record {
  organization_id = change.actor.organization_id;
  opportunity_id = change.opportunity.id;
  from_stage_id = change.opportunity.stage_id;
  to_stage_id = change.to_stage.id;
  changed_by_user_id = change.actor.id;
  lost_reason = reason;
}

abbrev pub stage_entries : StageChange → List AuditEntry
stage_entries change =
    entry change.actor AuditAction.opportunity_stage_changed EntityType.opportunity
      change.opportunity.id
    ∷ (if change.to_stage.is_won || change.to_stage.is_lost
        then entry change.actor
            (if change.to_stage.is_won
              then AuditAction.opportunity_won
              else AuditAction.opportunity_lost)
            EntityType.opportunity change.opportunity.id
          ∷ []
        else [])

abbrev pub reason_of : StageChange → Option Text
reason_of change =
    if change.to_stage.is_lost then normalize_lost_reason change.lost_reason else none

-- The writes once the guards have passed.
unfoldable pub move_stage : ℕ → StageChange → Option Text → Action (List AuditEntry)
move_stage now change reason = do
  modify_db (λ db. record db {
    opportunities =
        modify (λ o. o.id == change.opportunity.id) (moved now change reason) db.opportunities;
  })
  modify_db
      (λ db. record db { stage_history = db.stage_history ++ stage_history_row change reason ∷ [] })
  pure (stage_entries change)

-- Returns the audit entries that the caller has to record.
unfoldable pub apply_stage_change : ℕ → StageChange → Action (List AuditEntry)
unfolding normalize_lost_reason move_stage
apply_stage_change now change =
    if change.to_stage.id == change.opportunity.stage_id then pure [] else do
      raise_if (change.to_stage.is_lost && not (is_some (reason_of change)))
          Error.lost_reason_required
      move_stage now change (reason_of change)
