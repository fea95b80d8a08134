-- ===== src/UnitHolds/Sales/Winning.antt =====
-- `ensureOpportunityWon` of src/sales/sales.service.ts and the tables of units and money.
use harpia_api.Prelude.{
  ℕ, true, false, none, some, List, ◌==◌, Option, Bool-cases, Option-cases, inl, inr,
}
use harpia_api.Table.{find_first}
use harpia_api.Store.{
  UnitRow, ReservationRow, ProposalRow, OpportunityRow, StageRow, ReceivableRow, PaymentRow,
  SaleRow, Database, Actor, Ensures-found, Ensures-get, Ensures-row, Ensures-write, Ensures-pure,
  Ensures-guard,
}
use harpia_api.Opportunities.Stage.{StageChange}
use harpia_api.Proposals.Acceptance.{lock_opportunity, stage_is_won}
use harpia_api.Sales.Winning.{keep_won, win_for_sale, ensure_opportunity_won, ensure_won_if_any}
use harpia_api.UnitHolds.Proposals.Winning.{On, Keeps, apply_stage_change-Keeps}

abbrev won_change : OpportunityRow → Actor → UnitRow → StageRow → StageChange
won_change o actor unit won = record {
  actor = actor;
  opportunity = o;
  to_stage = record { id = won.id; is_won = true; is_lost = false };
  lost_reason = none;
  unit_id = some unit.id;
}

module _
    (P : List UnitRow
      → List ReservationRow
      → List ProposalRow
      → List SaleRow
      → List ReceivableRow
      → List PaymentRow
      → Type 0) where
  keep_won-Keeps :
      (u : Option ℕ) (id unit_id : ℕ) (db : Database) → On P db → Keeps P (keep_won u id unit_id) db
  unfolding keep_won
  keep_won-Keeps none id unit_id db h = Ensures-write _ _ _ (Ensures-pure _ _ h)
  keep_won-Keeps (some u) id unit_id db h = Ensures-pure _ _ h

  win_for_sale-Keeps :
      (now : ℕ) (o : OpportunityRow) (unit : UnitRow) (actor : Actor) (db : Database)
      → On P db
      → Keeps P (win_for_sale now o unit actor) db
  unfolding win_for_sale
  win_for_sale-Keeps now o unit actor db h = Ensures-get _ _ _ (
      Ensures-row _ _ _ _
        (λ won _. apply_stage_change-Keeps P now (won_change o actor unit won) db h) tt)

  ensure_opportunity_won-Keeps :
      (now id : ℕ) (p : ProposalRow) (unit : UnitRow) (actor : Actor) (db : Database)
      → On P db
      → Keeps P (ensure_opportunity_won now id p unit actor) db
  unfolding ensure_opportunity_won lock_opportunity
  ensure_opportunity_won-Keeps now id p unit actor db h =
      Ensures-found _ _ _ _
        (λ o _.
          Ensures-guard _ _ _ _
            (λ _. Ensures-get _ _ _ (
              Ensures-guard _ _ _ _
                (λ _.
                  elim (Bool-cases
                    (stage_is_won (find_first (λ s. s.id == o.stage_id) db.stages))) [
                      | inl e ↦ rw e (keep_won-Keeps o.unit_id o.id unit.id db h)
                      | inr e ↦ rw e (win_for_sale-Keeps now o unit actor db h)
                    ])
                tt))
            tt)
        tt

  pub ensure_won_if_any-Keeps :
      (now : ℕ) (p : ProposalRow) (unit : UnitRow) (actor : Actor) (db : Database)
      → On P db
      → Keeps P (ensure_won_if_any now p unit actor) db
  unfolding ensure_won_if_any
  ensure_won_if_any-Keeps now p unit actor db h = elim (Option-cases p.opportunity_id) [
    | inl e ↦ rw e (Ensures-pure _ _ h)
    | inr (id, e) ↦ rw e (ensure_opportunity_won-Keeps now id p unit actor db h)
  ]
