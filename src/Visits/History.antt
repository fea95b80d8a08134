-- ===== src/Visits/History.antt =====
-- Any sequence of requests on the visits of src/crm/visits.service.ts.

use harpia_api.Prelude.{ℕ, ◌≡◌, false, some, List, [], ◌∷◌, ◌==◌}
use harpia_api.Table.{find_first, count_by}
use harpia_api.Store.{SalesVisitRow, Database, Actor, state_of, state_of-Ensures}
use harpia_api.Visits.Plan.{UpdateSalesVisitDto, is_agendada}
use harpia_api.Visits.Requests.{CreateSalesVisitDto, create_visit, update_visit, visit_key}
use harpia_api.Visits.Steps.{IsCalendar, IsHistory, update_visit-Ensures, create_visit-Ensures}

pub data VisitRequest : Type 0 where
  scheduling : (id : ℕ) → Actor → CreateSalesVisitDto → VisitRequest
  changing : (now id : ℕ) → Actor → UpdateSalesVisitDto → VisitRequest

abbrev pub handle : VisitRequest → Database → Database
handle (scheduling id actor dto) db = state_of (create_visit id actor dto db)
handle (changing now id actor dto) db = state_of (update_visit now id actor dto db)

abbrev pub handle_all : List VisitRequest → Database → Database
handle_all [] db = db
handle_all (q ∷ qs) db = handle_all qs (handle q db)

-- The database gives a new visit an identifier that no other has.
abbrev pub IsNew : VisitRequest → Database → Type 0
IsNew (scheduling id actor dto) db = count_by (λ v. v.id == id) db.sales_visits ≡ 0
IsNew _ db = Unit {0}

abbrev pub AreNew : List VisitRequest → Database → Type 0
AreNew [] db = Unit {0}
AreNew (q ∷ qs) db = IsNew q db × AreNew qs (handle q db)

module _ (k org : ℕ) (e : SalesVisitRow) (over : is_agendada e.status ≡ false) where
  handle-IsHistory :
      (q : VisitRequest) (db : Database)
      → IsNew q db
      → IsHistory k org e over db
      → IsHistory k org e over (handle q db)
  handle-IsHistory (scheduling id actor dto) db new h =
      state_of-Ensures (IsHistory k org e over) _
        (create_visit-Ensures k org e over id actor dto db new h)
  handle-IsHistory (changing now id actor dto) db new h =
      state_of-Ensures (IsHistory k org e over) _
        (update_visit-Ensures k org e over now id actor dto db h)

  handle_all-IsHistory :
      (qs : List VisitRequest) (db : Database)
      → AreNew qs db
      → IsHistory k org e over db
      → IsHistory k org e over (handle_all qs db)
  handle_all-IsHistory [] db new h = h
  handle_all-IsHistory (q ∷ qs) db (new, rest) h =
      handle_all-IsHistory qs (handle q db) rest (handle-IsHistory q db new h)

-- A visit that has ended stays as it is, and every visit stays as its status says (a held one has
-- its time, a missed one no result, a cancelled one its reason), after any sequence of requests to
-- schedule and change visits, whoever sends them and however they end. Every visit is so at first,
-- and new visits get identifiers that are new.
pub ended_visit_kept :
    (qs : List VisitRequest) (db : Database) (k org : ℕ) (e : SalesVisitRow)
    → AreNew qs db
    → IsCalendar db.sales_visits
    → is_agendada e.status ≡ false
    → find_first (visit_key k org) db.sales_visits ≡ some e
    → (find_first (visit_key k org) (handle_all qs db).sales_visits ≡ some e)
      × IsCalendar (handle_all qs db).sales_visits
ended_visit_kept qs db k org e new calendar over found =
    let h =
      handle_all-IsHistory k org e over qs db new (record { calendar = calendar; kept = found }) in
    (h.kept, h.calendar)
