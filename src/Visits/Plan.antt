-- ===== src/Visits/Plan.antt =====
-- `planSalesVisitUpdate` of src/crm/sales-visit-transition.ts.
use harpia_api.Prelude.{
  ℕ, Bool, true, false, ◌||◌, not, Option, none, some, List, [], ◌∷◌, ◌++◌, Text, ◌==◌, same,
  or_else, eqb_text, if◌then◌else◌,
}
use harpia_api.Store.{SalesVisitStatus, SalesVisitOutcome, SalesVisitRow, Error}
use harpia_api.Opportunities.Stage.{trim}
use harpia_api.Proposals.Pricing.{text_or_null}

-- A field of the request: missing, null or a value.
pub data Given (A : Type 0) : Type 0 where
  absent null : Given A
  value : A → Given A

-- `has`
abbrev pub has : {A : Type 0} → Given A → Bool
has absent = false
has null = true
has (value a) = true

-- `value ?? null`
abbrev pub nullable : {A : Type 0} → Given A → Option A
nullable (value a) = some a
nullable absent = none
nullable null = none

-- UpdateSalesVisitDto. `scheduled_at` is the time that its text stands for, none where it stands for
-- none.
pub record UpdateSalesVisitDto : Type 0 where
  pub assigned_user_id : Given ℕ
  pub scheduled_at : Given (Option ℕ)
  pub duration_minutes : Given ℕ
  pub status : Option SalesVisitStatus
  pub outcome : Given SalesVisitOutcome
  pub location : Given Text
  pub result : Given Text
  pub notes : Given Text
  pub cancellation_reason : Given Text

-- `textOrNull`
unfoldable pub stripped : Option Text → Option Text
unfolding trim
stripped none = none
stripped (some s) = text_or_null (some (trim s))

abbrev pub same_text : Option Text → Option Text → Bool
same_text none none = true
same_text (some s) (some t) = eqb_text s t
same_text _ _ = false

pub data VisitField : Type 0 where
  assigned_user_id scheduled_at duration_minutes location notes : VisitField
  status outcome result cancellation_reason : VisitField

-- `data` of the plan, applied to the row that was locked; `changedFields`.
pub record Plan : Type 0 where
  pub row : SalesVisitRow
  pub changed_fields : List VisitField

-- The plan, null where there is nothing to change, or the exception.
pub data Planned : Type 0 where
  refused : Error → Planned
  unchanged : Planned
  change : Plan → Planned

-- An assignment, with its field among the changed ones, unless the value is the same.
abbrev pub unless_same : Bool → VisitField → (SalesVisitRow → SalesVisitRow) → Plan → Plan
unless_same true field f p = p
unless_same false field f p = record {
  row = f p.row;
  changed_fields = p.changed_fields ++ field ∷ [];
}

-- The assignments of a scheduled visit, in the order of the source.
abbrev pub assign : Given ℕ → Plan → Plan
assign absent p = p
assign id p =
    unless_same (same (nullable id) p.row.assigned_user_id) VisitField.assigned_user_id
      (λ v. record v { assigned_user_id = nullable id }) p

abbrev pub move_to : ℕ → Plan → Plan
move_to time p =
    unless_same (time == p.row.scheduled_at) VisitField.scheduled_at
      (λ v. record v { scheduled_at = time }) p

abbrev pub last_for : ℕ → Plan → Plan
last_for minutes p =
    unless_same (minutes == p.row.duration_minutes) VisitField.duration_minutes
      (λ v. record v { duration_minutes = minutes }) p

abbrev pub locate : Given Text → Plan → Plan
locate absent p = p
locate text p =
    unless_same (same_text (stripped (nullable text)) p.row.location) VisitField.location
      (λ v. record v { location = stripped (nullable text) }) p

abbrev pub annotate : Given Text → Plan → Plan
annotate absent p = p
annotate text p =
    unless_same (same_text (stripped (nullable text)) p.row.notes) VisitField.notes
      (λ v. record v { notes = stripped (nullable text) }) p

-- `changedFields.length ? … : null`
abbrev pub null_if_empty : List VisitField → Plan → Planned
null_if_empty [] p = Planned.unchanged
null_if_empty (f ∷ fs) p = Planned.change p

abbrev pub plan_rest : UpdateSalesVisitDto → Plan → Planned
plan_rest dto p =
    let last = annotate dto.notes (locate dto.location p) in null_if_empty last.changed_fields last

abbrev pub plan_duration : UpdateSalesVisitDto → Given ℕ → Plan → Planned
plan_duration dto absent p = plan_rest dto p
plan_duration dto null p = Planned.refused Error.invalid_visit_change
plan_duration dto (value minutes) p = plan_rest dto (last_for minutes p)

abbrev pub plan_time : UpdateSalesVisitDto → Given (Option ℕ) → Plan → Planned
plan_time dto absent p = plan_duration dto dto.duration_minutes p
plan_time dto null p = Planned.refused Error.invalid_schedule
plan_time dto (value none) p = Planned.refused Error.invalid_schedule
plan_time dto (value (some time)) p = plan_duration dto dto.duration_minutes (move_to time p)

-- The branch of a visit that stays scheduled.
abbrev pub plan_scheduled : UpdateSalesVisitDto → SalesVisitRow → Planned
plan_scheduled dto v =
    if has dto.outcome || has dto.result || has dto.cancellation_reason
    then Planned.refused Error.invalid_visit_change
    else plan_time dto dto.scheduled_at
        (assign dto.assigned_user_id (record { row = v; changed_fields = [] }))

abbrev pub changes_schedule : UpdateSalesVisitDto → Bool
changes_schedule dto =
    has dto.scheduled_at || has dto.duration_minutes || has dto.assigned_user_id || has dto.location

abbrev pub field_if : Bool → VisitField → List VisitField
field_if b f = if b then f ∷ [] else []

abbrev pub new_notes : Given Text → Option Text → Option Text
new_notes absent old = old
new_notes text old = stripped (nullable text)

abbrev pub plan_done : ℕ → UpdateSalesVisitDto → SalesVisitRow → Planned
plan_done now dto v =
    if has dto.cancellation_reason
    then Planned.refused Error.invalid_visit_change
    else Planned.change (record {
      row = record v {
        status = SalesVisitStatus.realizada;
        outcome = nullable dto.outcome;
        result = stripped (nullable dto.result);
        completed_at = some now;
        cancelled_at = none;
        cancellation_reason = none;
        notes = new_notes dto.notes v.notes;
      };
      changed_fields =
          VisitField.status ∷ field_if (has dto.outcome) VisitField.outcome
          ++ field_if (has dto.result) VisitField.result
          ++ field_if (has dto.notes) VisitField.notes;
    })

abbrev pub plan_missed : ℕ → UpdateSalesVisitDto → SalesVisitRow → Planned
plan_missed now dto v =
    if has dto.outcome || has dto.result || has dto.cancellation_reason || has dto.notes
    then Planned.refused Error.invalid_visit_change
    else Planned.change (record {
      row = record v {
        status = SalesVisitStatus.nao_compareceu;
        outcome = none;
        result = none;
        completed_at = some now;
        cancelled_at = none;
        cancellation_reason = none;
      };
      changed_fields = VisitField.status ∷ [];
    })

abbrev pub cancelled_for : ℕ → SalesVisitRow → Option Text → Planned
cancelled_for now v none = Planned.refused Error.cancellation_reason_required
cancelled_for now v (some reason) = Planned.change (record {
  row = record v {
    status = SalesVisitStatus.cancelada;
    outcome = none;
    result = none;
    completed_at = none;
    cancelled_at = some now;
    cancellation_reason = some reason;
  };
  changed_fields = VisitField.status ∷ VisitField.cancellation_reason ∷ [];
})

abbrev pub plan_cancelled : ℕ → UpdateSalesVisitDto → SalesVisitRow → Planned
plan_cancelled now dto v =
    if has dto.outcome || has dto.result || has dto.notes
    then Planned.refused Error.invalid_visit_change
    else cancelled_for now v (stripped (nullable dto.cancellation_reason))

-- The branch of a visit that ends.
abbrev pub plan_final : SalesVisitStatus → ℕ → UpdateSalesVisitDto → SalesVisitRow → Planned
plan_final SalesVisitStatus.agendada now dto v = Planned.refused Error.invalid_visit_change
plan_final SalesVisitStatus.realizada now dto v = plan_done now dto v
plan_final SalesVisitStatus.nao_compareceu now dto v = plan_missed now dto v
plan_final SalesVisitStatus.cancelada now dto v = plan_cancelled now dto v

abbrev pub is_agendada : SalesVisitStatus → Bool
is_agendada SalesVisitStatus.agendada = true
is_agendada _ = false

abbrev pub target_of : UpdateSalesVisitDto → SalesVisitStatus
target_of dto = or_else dto.status SalesVisitStatus.agendada

-- `planSalesVisitUpdate`
unfoldable pub plan_sales_visit_update : SalesVisitRow → UpdateSalesVisitDto → ℕ → Planned
plan_sales_visit_update v dto now =
    if not (is_agendada v.status)
    then Planned.refused Error.visit_closed
    else if is_agendada (target_of dto)
    then plan_scheduled dto v
    else if changes_schedule dto
    then Planned.refused Error.invalid_visit_change
    else plan_final (target_of dto) now dto v
