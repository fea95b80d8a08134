-- ===== src/Opportunities/StageLaws.antt =====
-- The stage changes of src/crm/opportunity-stage.ts: reasons, refusals and effects.
use harpia_api.Prelude.{
  all_by, bit, ◌+◌, ℕ, ◌≤◌, ◌≡◌, refl, Bool, true, false, ◌&&◌, ◌||◌, not, Option, none, some, List,
  [], ◌∷◌, ◌++◌, arith, length, length-take_le, ◌==◌, Text, is_some, Bool-cases, inl, inr, ◌≢◌, ◌↔◌,
}
use harpia_api.Table.{find_first, find_first_holds, find_first-modify, modify}
use harpia_api.Store.{
  Database, done, thrown, Error, run, AuditEntry, OpportunityRow, StageHistoryRow,
}
use harpia_api.Opportunities.Stage.{
  normalize_lost_reason, apply_stage_change, StageChange, max_lost_reason_length, capped, trim,
  reason_of, moved, stage_history_row, stage_entries, is_blank, trim_start, trim_end, attach,
}

-- No reason, or one with nothing but white space in it.
abbrev pub is_blank_text : Option Text → Bool
is_blank_text none = true
is_blank_text (some t) = all_by is_blank t

trim_start_nil : (t : Text) → all_by is_blank t ≡ true → trim_start t ≡ []
unfolding trim_start
trim_start_nil [] h = refl
trim_start_nil (c ∷ t) h = ground (arith, trim_start_nil t)

attach-ne-nil : (c : ℕ) (s : Text) → is_blank c ≡ false → capped (attach c s) ≢ none
attach-ne-nil c [] h e = elim (Bool-cases (is_blank c)) [ inl t ↦ cc | inr t ↦ cc (rw t at e) ]
attach-ne-nil c (d ∷ s) h e = cc

capped-trim-ne-none :
    (t : Text) → all_by is_blank t ≡ false → capped (trim_end (trim_start t)) ≢ none
unfolding trim_start trim_end
capped-trim-ne-none [] h = cc
capped-trim-ne-none (c ∷ t) h = elim (Bool-cases (is_blank c)) [
  | inl b ↦ rw b (capped-trim-ne-none t (rw b at h))
  | inr b ↦ rw b (attach-ne-nil c (trim_end t) b)
]

is_some_of_ne : (o : Option Text) → o ≢ none → is_some o ≡ true
is_some_of_ne none h = absurd (h refl)
is_some_of_ne (some t) h = refl

-- A reason is kept exactly when it is not blank.
normalized-is_some : (r : Option Text) → is_some (normalize_lost_reason r) ≡ not (is_blank_text r)
unfolding normalize_lost_reason
normalized-is_some none = refl
normalized-is_some (some t) = elim (Bool-cases (all_by is_blank t)) [
  | inl b ↦ rw (trim_start_nil t b, b) refl
  | inr b ↦ rw b (is_some_of_ne _ (capped-trim-ne-none t b))
]

abbrev pub text_length : Option Text → ℕ
text_length none = 0
text_length (some t) = length t

capped_length : (t : Text) → text_length (capped t) ≤ max_lost_reason_length
capped_length [] = omega arith
capped_length (c ∷ t) = length-take_le max_lost_reason_length (c ∷ t)

normalized_length :
    (r : Option Text) → text_length (normalize_lost_reason r) ≤ max_lost_reason_length
unfolding normalize_lost_reason
normalized_length none = omega arith
normalized_length (some t) = capped_length (trim t)

reason_kept :
    (change : StageChange)
    → is_some (reason_of change)
      ≡ (change.to_stage.is_lost && not (is_blank_text change.lost_reason))
reason_kept change = elim (Bool-cases change.to_stage.is_lost) [
  | inl l ↦ rw l (normalized-is_some change.lost_reason)
  | inr l ↦ rw l refl
]

reason_length : (change : StageChange) → text_length (reason_of change) ≤ max_lost_reason_length
reason_length change = elim (Bool-cases change.to_stage.is_lost) [
  | inl l ↦ rw l (normalized_length change.lost_reason)
  | inr l ↦ rw l (omega arith)
]

-- A change to another stage throws, with nothing written, exactly when the target is a lost stage
-- and the reason is blank.
pub stage_change_refused :
    (now : ℕ) (change : StageChange) (db : Database)
    → change.to_stage.id ≢ change.opportunity.stage_id
    → (apply_stage_change now change db ≡ thrown Error.lost_reason_required db)
      ↔ (change.to_stage.is_lost && is_blank_text change.lost_reason ≡ true)
unfolding apply_stage_change run
stage_change_refused now change db ne =
    (λ e. ground (arith, reason_kept change), λ e. ground (arith, reason_kept change))

-- The opportunity `o` moved to the stage of the change.
pub record IsMoved (now : ℕ) (change : StageChange) (reason : Option Text) (o o' : OpportunityRow)
    : Type 0 where
  pub same :
      (o'.id ≡ o.id) × (o'.organization_id ≡ o.organization_id) × (o'.person_id ≡ o.person_id)
  pub stage : o'.stage_id ≡ change.to_stage.id
  pub entered : o'.stage_entered_at ≡ now
  pub lost_reason : o'.lost_reason ≡ reason
  pub unit_given : (u : ℕ) → change.unit_id ≡ some u → o'.unit_id ≡ some u
  pub unit_kept : change.unit_id ≡ none → o'.unit_id ≡ o.unit_id

-- The row of the history that says so.
pub record IsHistory (change : StageChange) (reason : Option Text) (h : StageHistoryRow)
    : Type 0 where
  pub organization : h.organization_id ≡ change.actor.organization_id
  pub opportunity : h.opportunity_id ≡ change.opportunity.id
  pub from_stage : h.from_stage_id ≡ change.opportunity.stage_id
  pub to_stage : h.to_stage_id ≡ change.to_stage.id
  pub changed_by : h.changed_by_user_id ≡ change.actor.id
  pub lost_reason : h.lost_reason ≡ reason

-- What a change to another stage leaves: the opportunity is in the target stage since now, the others
-- are as they were, one history row says from which stage to which and by whom, both carry the same
-- reason, the reason is there exactly for a lost stage and is within the cap, and one audit entry is
-- reported, or two for a won or lost stage.
pub record IsStageChanged (now : ℕ) (change : StageChange) (db : Database) (o : OpportunityRow)
    (entries : List AuditEntry) (db' : Database) (reason : Option Text) : Type 0 where
  pub moved_one :
      (o' : OpportunityRow) × (find_first (λ x. x.id == change.opportunity.id) db'.opportunities
        ≡ some o')
      × IsMoved now change reason o o'
  pub others :
      (k : ℕ)
      → (k == change.opportunity.id) ≡ false
      → find_first (λ x. x.id == k) db'.opportunities ≡ find_first (λ x. x.id == k) db.opportunities
  pub history :
      (h : StageHistoryRow) × (db'.stage_history ≡ db.stage_history ++ h ∷ [])
      × IsHistory change reason h
  pub reason_iff_lost : is_some reason ≡ change.to_stage.is_lost
  pub reason_capped : text_length reason ≤ max_lost_reason_length
  pub reported : length entries ≡ 1 + bit (change.to_stage.is_won || change.to_stage.is_lost)
  pub audit_untouched : db'.audit_logs ≡ db.audit_logs

others_kept :
    (now id k : ℕ) (change : StageChange) (reason : Option Text) (os : List OpportunityRow)
    → (k == id) ≡ false
    → find_first (λ x. x.id == k) (modify (λ o. o.id == id) (moved now change reason) os)
      ≡ find_first (λ x. x.id == k) os
others_kept now id k change reason [] ne = refl
others_kept now id k change reason (x ∷ os) ne =
    ground (arith, others_kept now id k change reason os ne)

-- A change of an opportunity that is there to another stage, that is not to a lost stage with a blank
-- reason, succeeds as `IsStageChanged` says.
pub stage_change_effect :
    (now : ℕ) (change : StageChange) (db : Database) (o : OpportunityRow)
    → find_first (λ x. x.id == change.opportunity.id) db.opportunities ≡ some o
    → change.to_stage.id ≢ change.opportunity.stage_id
    → change.to_stage.is_lost && is_blank_text change.lost_reason ≡ false
    → (entries : List AuditEntry) × (db' : Database) × (apply_stage_change now change db
        ≡ done entries db')
      × (reason : Option Text) × IsStageChanged now change db o entries db' reason
unfolding apply_stage_change run
stage_change_effect now change db o found ne ok = (
  stage_entries change,
  record db {
    opportunities =
        modify (λ x. x.id == change.opportunity.id) (moved now change (reason_of change))
          db.opportunities;
    stage_history = db.stage_history ++ stage_history_row change (reason_of change) ∷ [];
  },
  ground (arith, reason_kept change),
  reason_of change,
  record {
    moved_one = (
      moved now change (reason_of change) o,
      ground (
        arith,
        find_first_holds (λ x. x.id == change.opportunity.id) db.opportunities o found,
        find_first-modify (λ x. x.id == change.opportunity.id) (λ x. x.id == change.opportunity.id)
            (moved now change (reason_of change)) db.opportunities o (λ x. refl) found,
      ),
      record {
        unit_given = λ u h. rw h refl;
        unit_kept = λ h. rw h refl;
        same = (refl, refl, refl);
        stage = refl;
        entered = refl;
        lost_reason = refl;
      },
    );
    others = λ k other.
        others_kept now change.opportunity.id k change (reason_of change) db.opportunities other;
    history = (
      stage_history_row change (reason_of change),
      refl,
      record {
        organization = refl;
        opportunity = refl;
        from_stage = refl;
        to_stage = refl;
        changed_by = refl;
        lost_reason = refl;
      },
    );
    reason_iff_lost = ground (arith, reason_kept change);
    reason_capped = reason_length change;
    reported = ground arith;
    audit_untouched = refl;
  },
)
