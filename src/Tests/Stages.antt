-- ===== src/Tests/Stages.antt =====
-- Stage changes of the opportunity of the sample database.
use harpia_api.Prelude.{
  ℕ, ◌≡◌, ◌↔◌, refl, none, some, Option, List, [], ◌∷◌, ◌&&◌, arith, Bool, true, false, Text,
}
use harpia_api.Store.{AuditEntry, Database, Error, done, thrown}
use harpia_api.Opportunities.Stage.{StageChange, apply_stage_change}
use harpia_api.Opportunities.StageLaws.{
  IsStageChanged, is_blank_text, stage_change_refused, stage_change_effect,
}
use harpia_api.Tests.Samples.{sample, actor, opportunity_row}

abbrev change_to : ℕ → Bool → Option Text → StageChange
change_to id lost reason = record {
  actor = actor;
  opportunity = opportunity_row;
  to_stage = record { id = id; is_won = false; is_lost = lost };
  lost_reason = reason;
  unit_id = none;
}

-- " " is no reason.
stage_change_refused_example :
    (apply_stage_change 100 (change_to 41 true (some (32 ∷ []))) sample
      ≡ thrown Error.lost_reason_required sample)
    ↔ (true && is_blank_text (some (32 ∷ [])) ≡ true)
stage_change_refused_example =
    stage_change_refused 100 (change_to 41 true (some (32 ∷ []))) sample (omega arith)

-- " no " is stored as "no".
stage_change_effect_example :
    (entries : List AuditEntry) × (db' : Database) × (apply_stage_change 100
        (change_to 41 true (some (32 ∷ 110 ∷ 111 ∷ 32 ∷ [])))
        sample
      ≡ done entries db')
    × (reason : Option Text) × IsStageChanged 100
        (change_to 41 true (some (32 ∷ 110 ∷ 111 ∷ 32 ∷ [])))
        sample
        opportunity_row
        entries
        db'
        reason
stage_change_effect_example =
    stage_change_effect 100 (change_to 41 true (some (32 ∷ 110 ∷ 111 ∷ 32 ∷ []))) sample
      opportunity_row refl (omega arith) refl
