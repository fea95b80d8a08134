-- ===== src/Visits/Steps.antt =====
-- `create` and `update` of src/crm/visits.service.ts, and the visits that have ended.
use harpia_api.Receivables.Payments.{first_of}
use Prim.{absurd}
use mathlib.Core.Option.{some-injective}
use harpia_api.Prelude.{
  ℕ, ◌≤◌, ◌≡◌, refl, sym, ◌∙◌, Bool, true, false, Option, none, some, List, [], ◌∷◌, ◌++◌, ◌==◌,
  arith, All, All-append, Bool-cases, inl, inr, ap,
}
use harpia_api.Table.{
  find_first, find_first-All, find_first_holds, modify, modify-All, count_by, count_by-append,
  count_by-modify_same, count_by-find_first,
}
use harpia_api.Store.{
  SalesVisitRow, Database, Actor, Ensures, Ensures-bind, Ensures-then, Ensures-get, Ensures-found,
  Ensures-guard, Ensures-guarded, Ensures-write, Ensures-record_one, Ensures-pure,
  Ensures-transaction, raise, Error, Ensures-row,
}
use harpia_api.Visits.Plan.{
  UpdateSalesVisitDto, Planned, is_agendada, plan_sales_visit_update, Plan,
}
use harpia_api.Visits.Requests.{
  CreateSalesVisitDto, create_visit, update_visit, assert_assigned_user, assert_if,
  resolve_location, visit_key, lock_visit, carry_out, new_visit, set_visit, insert_visit,
}
use harpia_api.Visits.Lifecycle.{IsVisit, Follows, Leads, Leads-plan, closed_lem}

-- The visits have identifiers of their own and are as their status says.
pub record IsCalendar (vs : List SalesVisitRow) : Type 0 where
  pub visit_ids : (k : ℕ) → count_by (λ v. v.id == k) vs ≤ 1
  pub visits : All IsVisit vs

-- The visit that `e` was when it ended is there unchanged.
abbrev pub Keeps : ℕ → ℕ → SalesVisitRow → List SalesVisitRow → Type 0
Keeps id org e vs = find_first (visit_key id org) vs ≡ some e

replace-All :
    (id : ℕ) (new : SalesVisitRow) (vs : List SalesVisitRow)
    → IsVisit new
    → All IsVisit vs
    → All IsVisit (modify (λ v. v.id == id) (λ v. new) vs)
replace-All id new vs ok a = modify-All IsVisit (λ v. v.id == id) (λ v. new) vs (λ r e h. ok) a

-- Another visit of the list is found after one is replaced.
find_first-replace :
    (id k org : ℕ) (new : SalesVisitRow) (vs : List SalesVisitRow) (e : SalesVisitRow)
    → new.id ≡ k
    → (id == k) ≡ false
    → find_first (visit_key id org) vs ≡ some e
    → find_first (visit_key id org) (modify (λ v. v.id == k) (λ v. new) vs) ≡ some e
find_first-replace id k org new [] e same ne found = cc
find_first-replace id k org new (x ∷ vs) e same ne found =
    ground (arith, find_first-replace id k org new vs e same ne)

find_first-append :
    (p : SalesVisitRow → Bool) (vs ws : List SalesVisitRow) (e : SalesVisitRow)
    → find_first p vs ≡ some e
    → find_first p (vs ++ ws) ≡ some e
find_first-append p [] ws e found = cc
find_first-append p (x ∷ vs) ws e found = ground (arith, find_first-append p vs ws e)

-- Two queries that find rows with one identifier find one row.
same_found :
    (k : ℕ) (p q : SalesVisitRow → Bool) (vs : List SalesVisitRow) (a b : SalesVisitRow)
    → count_by (λ v. v.id == k) vs ≤ 1
    → find_first p vs ≡ some a
    → find_first q vs ≡ some b
    → (a.id == k) ≡ true
    → (b.id == k) ≡ true
    → a ≡ b
same_found k p q [] a b one fa fb ia ib = cc
same_found k p q (x ∷ vs) a b one fa fb ia ib = elim (Bool-cases (p x)) [
  | inl px ↦ elim (Bool-cases (q x)) [
    | inl qx ↦ some-injective _ _ (sym (rw px at fa) ∙ rw qx at fb)
    | inr qx ↦
        let same = some-injective _ _ (rw px at fa) in
        absurd (
          ground (
            arith,
            one,
            rw (sym same) at ia,
            count_by-find_first q (λ v. v.id == k) vs b (rw qx at fb) ib,
          ))
  ]
  | inr px ↦ elim (Bool-cases (q x)) [
    | inl qx ↦
        let same = some-injective _ _ (rw qx at fb) in
        absurd (
          ground (
            arith,
            one,
            rw (sym same) at ib,
            count_by-find_first p (λ v. v.id == k) vs a (rw px at fa) ia,
          ))
    | inr qx ↦ same_found k p q vs a b (omega (arith, one)) (rw px at fa) (rw qx at fb) ia ib
  ]
]

refused_not_change : {x : Error} (p : Plan) → Planned.refused x ≡ Planned.change p → ⊥
refused_not_change p bad = cc

module _ (k org : ℕ) (e : SalesVisitRow) (over : is_agendada e.status ≡ false) where
  pub record IsHistory (db : Database) : Type 0 where
    pub calendar : IsCalendar db.sales_visits
    pub kept : Keeps k org e db.sales_visits

  assert_assigned_user-Ensures :
      (u : Option ℕ) (o : ℕ) (db : Database)
      → Ensures (λ _ d. d ≡ db) (λ _. Unit {0}) (assert_assigned_user u o db)
  unfolding assert_assigned_user
  assert_assigned_user-Ensures none o db = Ensures-pure _ _ refl
  assert_assigned_user-Ensures (some id) o db =
      Ensures-get _ _ _ (Ensures-guarded _ _ _ (λ _. refl) tt)

  assert_if-Ensures :
      (b : Bool) (u : Option ℕ) (o : ℕ) (db : Database)
      → Ensures (λ _ d. d ≡ db) (λ _. Unit {0}) (assert_if b u o db)
  unfolding assert_if
  assert_if-Ensures true u o db = assert_assigned_user-Ensures u o db
  assert_if-Ensures false u o db = Ensures-pure _ _ refl

  replace-IsHistory :
      (id : ℕ) (v new : SalesVisitRow) (db : Database)
      → (v.id == id) ≡ true
      → Follows v new
      → (k == id) ≡ false
      → IsHistory db
      → IsHistory (set_visit id new db)
  replace-IsHistory id v new db same follows ne h = record {
    calendar = record {
      visit_ids = λ i. omega (
        arith,
        h.calendar.visit_ids i,
        count_by-modify_same (λ x. x.id == id) (λ x. x.id == i) (λ x. new) db.sales_visits
            (λ r m. ground (arith, follows.same_id)),
      );
      visits = replace-All id new db.sales_visits follows.ended h.calendar.visits;
    };
    kept =
        find_first-replace k id org new db.sales_visits e (ground (arith, follows.same_id)) ne
          h.kept;
  }

  carry_out-Ensures :
      (id : ℕ) (actor : Actor) (dto : UpdateSalesVisitDto) (v : SalesVisitRow) (planned : Planned)
      (db : Database)
      → (v.id == id) ≡ true
      → Leads (Follows v) planned
      → ((p : Plan) → planned ≡ Planned.change p → (k == id) ≡ false)
      → IsHistory db
      → Ensures (λ _. IsHistory) (λ _. Unit {0}) (carry_out id actor dto v planned db)
  unfolding carry_out raise
  carry_out-Ensures id actor dto v (Planned.refused x) db same leads ne h = record { at = tt }
  carry_out-Ensures id actor dto v Planned.unchanged db same leads ne h = Ensures-pure _ _ h
  carry_out-Ensures id actor dto v (Planned.change p) db same leads ne h =
      Ensures-then (λ _ d. d ≡ db) _ _ _ (assert_if-Ensures _ _ _ db)
        (λ _ d unmoved. rw unmoved (
          Ensures-write _ _ _ (
            Ensures-record_one _ _ _ (
              Ensures-pure _ _ (
                let after = replace-IsHistory id v p.row db same leads (ne p refl) h in
                record { calendar = after.calendar; kept = after.kept })))))

  -- The ended visit has no plan.
  not_planned :
      (id o now : ℕ) (v : SalesVisitRow) (dto : UpdateSalesVisitDto) (vs : List SalesVisitRow)
      (p : Plan)
      → IsCalendar vs
      → Keeps k org e vs
      → find_first (visit_key id o) vs ≡ some v
      → plan_sales_visit_update v dto now ≡ Planned.change p
      → (k == id) ≡ false
  not_planned id o now v dto vs p calendar kept found planned = elim (Bool-cases (k == id)) [
    | inl is ↦
        let at_v : (v.id == k) ≡ true =
          ground (arith, is, find_first_holds (visit_key id o) vs v found) in
        let at_e : (e.id == k) ≡ true =
          ground (arith, find_first_holds (visit_key k org) vs e kept) in
        let one =
          same_found k (visit_key id o) (visit_key k org) vs v e (calendar.visit_ids k) found kept
            at_v at_e in
        absurd (
          refused_not_change p (
            sym (closed_lem e dto now over)
            ∙ ap (λ x. plan_sales_visit_update x dto now) (sym one)
            ∙ planned))
    | inr ne ↦ ne
  ]

  pub update_visit-Ensures :
      (now id : ℕ) (actor : Actor) (dto : UpdateSalesVisitDto) (db : Database)
      → IsHistory db
      → Ensures (λ _. IsHistory) IsHistory (update_visit now id actor dto db)
  unfolding update_visit lock_visit
  update_visit-Ensures now id actor dto db h =
      Ensures-transaction _ _
        (Ensures-found _ _ _ _
          (λ v found.
            carry_out-Ensures id actor dto v (plan_sales_visit_update v dto now) db
              (ground (
                arith,
                find_first_holds (visit_key id actor.organization_id) db.sales_visits v found,
              ))
              (Leads-plan v dto now (
                find_first-All IsVisit (visit_key id actor.organization_id) db.sales_visits v
                  h.calendar.visits found))
              (λ p.
                not_planned id actor.organization_id now v dto db.sales_visits p h.calendar h.kept
                  found)
              h)
          tt)
        h

  resolve_location-Ensures :
      (d u : Option ℕ) (o : ℕ) (db : Database)
      → Ensures (λ _ d'. d' ≡ db) (λ _. Unit {0}) (resolve_location d u o db)
  unfolding resolve_location
  resolve_location-Ensures none none o db = Ensures-pure _ _ refl
  resolve_location-Ensures (some d) none o db =
      Ensures-get _ _ _ (Ensures-guard _ _ _ _ (λ _. Ensures-pure _ _ refl) tt)
  resolve_location-Ensures none (some u) o db =
      Ensures-get _ _ _
        (Ensures-row _ _ _ _ (λ unit _. Ensures-guard _ _ _ _ (λ _. Ensures-pure _ _ refl) tt) tt)
  resolve_location-Ensures (some d) (some u) o db =
      Ensures-get _ _ _
        (Ensures-row _ _ _ _ (λ unit _. Ensures-guard _ _ _ _ (λ _. Ensures-pure _ _ refl) tt) tt)

  insert-IsHistory :
      (new : SalesVisitRow) (db : Database)
      → count_by (λ v. v.id == new.id) db.sales_visits ≡ 0
      → IsVisit new
      → IsHistory db
      → IsHistory (insert_visit new db)
  insert-IsHistory new db fresh ok h = record {
    calendar = record {
      visit_ids = λ i. ground (
        arith,
        h.calendar.visit_ids i,
        fresh,
        count_by-append (λ v. v.id == i) db.sales_visits (new ∷ []),
      );
      visits = All-append IsVisit db.sales_visits (new ∷ []) h.calendar.visits (ok, tt);
    };
    kept = find_first-append (visit_key k org) db.sales_visits (new ∷ []) e h.kept;
  }

  pub create_visit-Ensures :
      (id : ℕ) (actor : Actor) (dto : CreateSalesVisitDto) (db : Database)
      → count_by (λ v. v.id == id) db.sales_visits ≡ 0
      → IsHistory db
      → Ensures (λ _. IsHistory) IsHistory (create_visit id actor dto db)
  unfolding create_visit
  create_visit-Ensures id actor dto db fresh h =
      Ensures-transaction _ _
        (Ensures-get _ _ _ (
          Ensures-row _ _ _ _
            (λ o _.
              Ensures-then (λ _ d. d ≡ db) _ _ _
                (assert_assigned_user-Ensures (first_of dto.assigned_user_id o.assigned_user_id)
                  actor.organization_id db)
                (λ _ d same. rw same (
                  Ensures-bind (λ _ d'. d' ≡ db) _ _ _
                    (resolve_location-Ensures (first_of dto.development_id o.development_id)
                      (first_of dto.unit_id o.unit_id) actor.organization_id db)
                    (λ place d' same'. rw same' (
                      Ensures-write _ _ _ (
                        Ensures-record_one _ _ _ (
                          Ensures-pure _ _ (
                            let after =
                              insert-IsHistory
                                (new_visit id actor o
                                  (first_of dto.assigned_user_id o.assigned_user_id) place dto)
                                db fresh (refl, refl, refl, refl, refl) h in
                            record { calendar = after.calendar; kept = after.kept }))))))))
            tt))
        h
