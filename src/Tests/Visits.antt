-- ===== src/Tests/Visits.antt =====
-- Visits on the sample database.
use harpia_api.Prelude.{◌≡◌, refl, none, some, List, [], ◌∷◌, arith}
use harpia_api.Table.{find_first}
use harpia_api.Store.{SalesVisitStatus, SalesVisitOutcome, SalesVisitRow, Database, run}
use harpia_api.Visits.Plan.{Given, UpdateSalesVisitDto, stripped}
use harpia_api.Visits.Requests.{CreateSalesVisitDto, visit_key, create_visit, update_visit}
use harpia_api.Visits.Steps.{IsCalendar}
use harpia_api.Visits.History.{VisitRequest, IsNew, handle, handle_all, ended_visit_kept}
use harpia_api.Tests.Samples.{sample, actor}

abbrev visit_dto : CreateSalesVisitDto
visit_dto = record {
  opportunity_id = 30;
  assigned_user_id = some 1;
  development_id = none;
  unit_id = some 1;
  scheduled_at = 50;
  duration_minutes = none;
  location = none;
  notes = none;
}

abbrev held_dto : UpdateSalesVisitDto
held_dto = record {
  assigned_user_id = Given.absent;
  scheduled_at = Given.absent;
  duration_minutes = Given.absent;
  status = some SalesVisitStatus.realizada;
  outcome = Given.value SalesVisitOutcome.interesse_alto;
  location = Given.absent;
  result = Given.absent;
  notes = Given.absent;
  cancellation_reason = Given.absent;
}

abbrev moved_dto : UpdateSalesVisitDto
moved_dto = record held_dto {
  status = none;
  outcome = Given.absent;
  scheduled_at = Given.value (some 90);
}

abbrev held_visit : SalesVisitRow
held_visit = record {
  id = 33;
  organization_id = 1;
  opportunity_id = 30;
  person_id = 5;
  assigned_user_id = some 1;
  created_by_user_id = 1;
  development_id = some 1;
  unit_id = some 1;
  scheduled_at = 90;
  duration_minutes = 60;
  status = SalesVisitStatus.realizada;
  outcome = some SalesVisitOutcome.interesse_alto;
  location = none;
  result = none;
  notes = none;
  completed_at = some 95;
  cancelled_at = none;
  cancellation_reason = none;
}

-- A visit is scheduled, moved and held.
held_test :
    (handle_all
      (VisitRequest.scheduling 33 actor visit_dto
        ∷ VisitRequest.changing 40 33 actor moved_dto
        ∷ VisitRequest.changing 95 33 actor held_dto
        ∷ VisitRequest.changing 99 33 actor moved_dto
        ∷ [])
      sample).sales_visits
    ≡ held_visit ∷ []
unfolding create_visit update_visit stripped run
held_test = refl

abbrev visited : Database
visited = record sample { sales_visits = held_visit ∷ [] }

abbrev later_requests : List VisitRequest
later_requests =
    VisitRequest.changing 99 33 actor moved_dto
    ∷ VisitRequest.scheduling 34 actor visit_dto
    ∷ VisitRequest.changing 120 34 actor held_dto
    ∷ []

visited-IsCalendar : IsCalendar visited.sales_visits
visited-IsCalendar = record { visit_ids = λ k. ground arith; visits = ((refl, refl, refl), tt) }

later_test :
    IsNew
      (VisitRequest.scheduling 34 actor visit_dto)
      (handle (VisitRequest.changing 99 33 actor moved_dto) visited)
unfolding update_visit run
later_test = refl

ended_visit_kept_example :
    (find_first (visit_key 33 1) (handle_all later_requests visited).sales_visits ≡ some held_visit)
    × IsCalendar (handle_all later_requests visited).sales_visits
ended_visit_kept_example =
    ended_visit_kept later_requests visited 33 1 held_visit (tt, (later_test, (tt, tt)))
      visited-IsCalendar refl refl
