-- ===== src/Visits/Lifecycle.antt =====
-- The life of a visit under the plans of src/crm/sales-visit-transition.ts.
use harpia_api.Prelude.{
  ℕ, ◌≡◌, refl, Bool, true, false, ◌||◌, Option, none, some, List, [], ◌∷◌, Text, ◌==◌, same,
  is_some, Bool-cases, inl, inr,
}
use harpia_api.Store.{SalesVisitStatus, SalesVisitRow, SalesVisitOutcome, Error}
use harpia_api.Visits.Plan.{
  Given, VisitField, UpdateSalesVisitDto, Plan, Planned, has, nullable, stripped, same_text, assign,
  unless_same, move_to, last_for, locate, annotate, null_if_empty, plan_duration, plan_time,
  changes_schedule, cancelled_for, plan_final, is_agendada, target_of, plan_sales_visit_update,
}

-- What the status of a visit says of its ending.
abbrev pub IsEnded :
    SalesVisitStatus
    → Option ℕ
    → Option ℕ
    → Option Text
    → Option SalesVisitOutcome
    → Option Text
    → Type 0
IsEnded SalesVisitStatus.agendada completed cancelled reason outcome result =
    (completed ≡ none) × (cancelled ≡ none) × (reason ≡ none) × (outcome ≡ none) × (result ≡ none)
IsEnded SalesVisitStatus.realizada completed cancelled reason outcome result =
    (is_some completed ≡ true) × (cancelled ≡ none) × (reason ≡ none)
IsEnded SalesVisitStatus.nao_compareceu completed cancelled reason outcome result =
    (is_some completed ≡ true)
    × (cancelled ≡ none)
    × (reason ≡ none)
    × (outcome ≡ none)
    × (result ≡ none)
IsEnded SalesVisitStatus.cancelada completed cancelled reason outcome result =
    (completed ≡ none)
    × (is_some cancelled ≡ true)
    × (is_some reason ≡ true)
    × (outcome ≡ none)
    × (result ≡ none)

abbrev pub IsVisit : SalesVisitRow → Type 0
IsVisit v = IsEnded v.status v.completed_at v.cancelled_at v.cancellation_reason v.outcome v.result

-- The plan, where there is one, leads to a row with the property.
abbrev pub Leads : (SalesVisitRow → Type 0) → Planned → Type 0
Leads P (Planned.refused e) = Unit {0}
Leads P Planned.unchanged = Unit {0}
Leads P (Planned.change p) = P p.row

-- The row is the same visit, and as its status says.
pub record Follows (v w : SalesVisitRow) : Type 0 where
  pub same_id : w.id ≡ v.id
  pub same_org : w.organization_id ≡ v.organization_id
  pub ended : IsVisit w

-- An assignment that touches neither the identity nor the ending of a visit.
unless_same-Follows :
    (v : SalesVisitRow) (b : Bool) (field : VisitField) (f : SalesVisitRow → SalesVisitRow)
    (p : Plan)
    → Follows v p.row
    → (Follows v p.row → Follows v (f p.row))
    → Follows v (unless_same b field f p).row
unless_same-Follows v true field f p h k = h
unless_same-Follows v false field f p h k = k h

module _ (v : SalesVisitRow) where
  assign-Follows : (t : Given ℕ) (p : Plan) → Follows v p.row → Follows v (assign t p).row
  assign-Follows Given.absent p h = h
  assign-Follows Given.null p h =
      unless_same-Follows v (same none p.row.assigned_user_id) VisitField.assigned_user_id
        (λ w. record w { assigned_user_id = none }) p h
        (λ k. record { same_id = k.same_id; same_org = k.same_org; ended = k.ended })
  assign-Follows (Given.value a) p h =
      unless_same-Follows v (same (some a) p.row.assigned_user_id) VisitField.assigned_user_id
        (λ w. record w { assigned_user_id = some a }) p h
        (λ k. record { same_id = k.same_id; same_org = k.same_org; ended = k.ended })

  locate-Follows : (t : Given Text) (p : Plan) → Follows v p.row → Follows v (locate t p).row
  locate-Follows Given.absent p h = h
  locate-Follows Given.null p h =
      unless_same-Follows v (same_text (stripped none) p.row.location) VisitField.location
        (λ w. record w { location = stripped none }) p h
        (λ k. record { same_id = k.same_id; same_org = k.same_org; ended = k.ended })
  locate-Follows (Given.value a) p h =
      unless_same-Follows v (same_text (stripped (some a)) p.row.location) VisitField.location
        (λ w. record w { location = stripped (some a) }) p h
        (λ k. record { same_id = k.same_id; same_org = k.same_org; ended = k.ended })

  annotate-Follows : (t : Given Text) (p : Plan) → Follows v p.row → Follows v (annotate t p).row
  annotate-Follows Given.absent p h = h
  annotate-Follows Given.null p h =
      unless_same-Follows v (same_text (stripped none) p.row.notes) VisitField.notes
        (λ w. record w { notes = stripped none }) p h
        (λ k. record { same_id = k.same_id; same_org = k.same_org; ended = k.ended })
  annotate-Follows (Given.value a) p h =
      unless_same-Follows v (same_text (stripped (some a)) p.row.notes) VisitField.notes
        (λ w. record w { notes = stripped (some a) }) p h
        (λ k. record { same_id = k.same_id; same_org = k.same_org; ended = k.ended })

  Leads-null_if_empty :
      (fs : List VisitField) (p : Plan) → Follows v p.row → Leads (Follows v) (null_if_empty fs p)
  Leads-null_if_empty [] p h = tt
  Leads-null_if_empty (f ∷ fs) p h = h

  Leads-plan_duration :
      (dto : UpdateSalesVisitDto) (d : Given ℕ) (p : Plan)
      → Follows v p.row
      → Leads (Follows v) (plan_duration dto d p)
  Leads-plan_duration dto Given.absent p h =
      Leads-null_if_empty _ _ (annotate-Follows dto.notes _ (locate-Follows dto.location p h))
  Leads-plan_duration dto Given.null p h = tt
  Leads-plan_duration dto (Given.value minutes) p h = Leads-null_if_empty _ _ (
      annotate-Follows dto.notes _ (
        locate-Follows dto.location (last_for minutes p) (
          unless_same-Follows v (minutes == p.row.duration_minutes) VisitField.duration_minutes
            (λ w. record w { duration_minutes = minutes }) p h
            (λ k. record { same_id = k.same_id; same_org = k.same_org; ended = k.ended }))))

  Leads-plan_time :
      (dto : UpdateSalesVisitDto) (t : Given (Option ℕ)) (p : Plan)
      → Follows v p.row
      → Leads (Follows v) (plan_time dto t p)
  Leads-plan_time dto Given.absent p h = Leads-plan_duration dto dto.duration_minutes p h
  Leads-plan_time dto Given.null p h = tt
  Leads-plan_time dto (Given.value none) p h = tt
  Leads-plan_time dto (Given.value (some time)) p h =
      Leads-plan_duration dto dto.duration_minutes (move_to time p) (
        unless_same-Follows v (time == p.row.scheduled_at) VisitField.scheduled_at
          (λ w. record w { scheduled_at = time }) p h
          (λ k. record { same_id = k.same_id; same_org = k.same_org; ended = k.ended }))

  Leads-cancelled_for :
      (now : ℕ) (reason : Option Text) → Leads (Follows v) (cancelled_for now v reason)
  Leads-cancelled_for now none = tt
  Leads-cancelled_for now (some r) = record {
    same_id = refl;
    same_org = refl;
    ended = (refl, refl, refl, refl, refl);
  }

  Leads-plan_final :
      (s : SalesVisitStatus) (now : ℕ) (dto : UpdateSalesVisitDto)
      → Leads (Follows v) (plan_final s now dto v)
  Leads-plan_final SalesVisitStatus.agendada now dto = tt
  Leads-plan_final SalesVisitStatus.realizada now dto =
      elim (Bool-cases (has dto.cancellation_reason)) [
        | inl e ↦ rw e tt
        | inr e ↦ rw e (record { same_id = refl; same_org = refl; ended = (refl, refl, refl) })
      ]
  Leads-plan_final SalesVisitStatus.nao_compareceu now dto =
      elim (Bool-cases
        (has dto.outcome || has dto.result || has dto.cancellation_reason || has dto.notes)) [
          | inl e ↦ rw e tt
          | inr e ↦
              rw e
                (record { same_id = refl; same_org = refl; ended = (refl, refl, refl, refl, refl) })
        ]
  Leads-plan_final SalesVisitStatus.cancelada now dto =
      elim (Bool-cases (has dto.outcome || has dto.result || has dto.notes)) [
        | inl e ↦ rw e tt
        | inr e ↦ rw e (Leads-cancelled_for now (stripped (nullable dto.cancellation_reason)))
      ]

  -- A plan keeps what the status of a visit says of its ending.
  pub Leads-plan :
      (dto : UpdateSalesVisitDto) (now : ℕ)
      → IsVisit v
      → Leads (Follows v) (plan_sales_visit_update v dto now)
  unfolding plan_sales_visit_update
  Leads-plan dto now ok = elim (Bool-cases (is_agendada v.status)) [
    | inl ahead ↦ rw ahead (elim (Bool-cases (is_agendada (target_of dto))) [
      | inl stays ↦
          rw stays
            (elim (Bool-cases (has dto.outcome || has dto.result || has dto.cancellation_reason)) [
              | inl e ↦ rw e tt
              | inr e ↦ rw e (
                  Leads-plan_time dto dto.scheduled_at
                    (assign dto.assigned_user_id (record { row = v; changed_fields = [] }))
                    (assign-Follows dto.assigned_user_id (record { row = v; changed_fields = [] })
                      (record { same_id = refl; same_org = refl; ended = ok })))
            ])
      | inr ends ↦ rw ends (elim (Bool-cases (changes_schedule dto)) [
        | inl e ↦ rw e tt
        | inr e ↦ rw e (Leads-plan_final (target_of dto) now dto)
      ])
    ])
    | inr over ↦ rw over tt
  ]

  -- A visit that has ended has no plan.
  pub closed_lem :
      (dto : UpdateSalesVisitDto) (now : ℕ)
      → is_agendada v.status ≡ false
      → plan_sales_visit_update v dto now ≡ Planned.refused Error.visit_closed
  unfolding plan_sales_visit_update
  closed_lem dto now over = rw over refl
