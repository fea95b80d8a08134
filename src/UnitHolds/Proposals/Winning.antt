-- ===== src/UnitHolds/Proposals/Winning.antt =====
-- `winOpportunity` of src/proposals/proposals.service.ts and the tables of the commercial invariant.

use harpia_api.Prelude.{
  ℕ, true, false, none, some, List, ◌==◌, Bool-cases, Option-cases, or_else, inl, inr,
}
use harpia_api.Table.{find_first}
use harpia_api.Store.{
  UnitRow, ReservationRow, ProposalRow, OpportunityRow, ReceivableRow, PaymentRow, StageRow,
  SaleRow, Database, Actor, Action, Ensures, Ensures-found, Ensures-get, Ensures-row, Ensures-write,
  Ensures-pure, Ensures-guard,
}
use harpia_api.Opportunities.Stage.{StageChange, apply_stage_change}
use harpia_api.Proposals.Acceptance.{
  lock_opportunity, move_to_won, stage_is_won, win_if_any, win_opportunity,
}

abbrev won_change : OpportunityRow → Actor → ProposalRow → StageRow → StageChange
won_change o actor p won = record {
  actor = actor;
  opportunity = o;
  to_stage = record { id = won.id; is_won = true; is_lost = false };
  lost_reason = none;
  unit_id = some (or_else o.unit_id p.unit_id);
}

-- Winning an opportunity leaves six tables alone.
module _
    (P : List UnitRow
      → List ReservationRow
      → List ProposalRow
      → List SaleRow
      → List ReceivableRow
      → List PaymentRow
      → Type 0) where
  abbrev pub On : Database → Type 0
  On d = P d.units d.reservations d.proposals d.sales d.receivables d.payments

  abbrev pub Keeps : {A : Type 0} → Action A → Database → Type 0
  Keeps m db = Ensures (λ _ d. On d) (λ _. Unit {0}) (m db)

  pub apply_stage_change-Keeps :
      (now : ℕ) (change : StageChange) (db : Database)
      → On db
      → Keeps (apply_stage_change now change) db
  unfolding apply_stage_change
  apply_stage_change-Keeps now change db h =
      elim (Bool-cases (change.to_stage.id == change.opportunity.stage_id)) [
        | inl e ↦ rw e (Ensures-pure _ _ h)
        | inr e ↦ rw e (
            Ensures-guard _ _ _ _
              (λ _. Ensures-write _ _ _ (Ensures-write _ _ _ (Ensures-pure _ _ h))) tt)
      ]

  move_to_won-Keeps :
      (now : ℕ) (o : OpportunityRow) (actor : Actor) (p : ProposalRow) (db : Database)
      → On db
      → Keeps (move_to_won now o actor p) db
  unfolding move_to_won
  move_to_won-Keeps now o actor p db h = Ensures-get _ _ _ (
      Ensures-row _ _ _ _ (λ won _. apply_stage_change-Keeps now (won_change o actor p won) db h)
        tt)

  win_opportunity-Keeps :
      (now id : ℕ) (actor : Actor) (p : ProposalRow) (db : Database)
      → On db
      → Keeps (win_opportunity now id actor p) db
  unfolding win_opportunity lock_opportunity
  win_opportunity-Keeps now id actor p db h =
      Ensures-found _ _ _ _
        (λ o _.
          Ensures-guard _ _ _ _
            (λ _. Ensures-get _ _ _ (
              Ensures-guard _ _ _ _
                (λ _.
                  elim (Bool-cases
                    (stage_is_won (find_first (λ s. s.id == o.stage_id) db.stages))) [
                      | inl e ↦ rw e (Ensures-pure _ _ h)
                      | inr e ↦ rw e (move_to_won-Keeps now o actor p db h)
                    ])
                tt))
            tt)
        tt

  pub win_if_any-Keeps :
      (now : ℕ) (actor : Actor) (p : ProposalRow) (db : Database)
      → On db
      → Keeps (win_if_any now actor p) db
  unfolding win_if_any
  win_if_any-Keeps now actor p db h = elim (Option-cases p.opportunity_id) [
    | inl e ↦ rw e (Ensures-pure _ _ h)
    | inr (id, e) ↦ rw e (win_opportunity-Keeps now id actor p db h)
  ]
