-- ===== src/UnitHolds/Accounts.antt =====
-- The counts that the commercial invariant compares, and the invariant.
use harpia_api.Prelude.{ℕ, ◌+◌, ◌≤◌, Bool, true, false, ◌&&◌, not, List, ◌==◌, is_some}
use harpia_api.Table.{count_by}
use harpia_api.Store.{
  UnitStatus, UnitRow, ReservationRow, ProposalRow, SaleRow, Database, is_ativa, is_reservada,
  is_aceita, is_current,
}

abbrev pub is_sold : UnitStatus → Bool
is_sold UnitStatus.vendida = true
is_sold UnitStatus.quitada = true
is_sold _ = false

-- Rows of the unit whose status passes a test; there is at most one, by the primary key.
abbrev pub status_on : (UnitStatus → Bool) → ℕ → List UnitRow → ℕ
status_on t u = count_by (λ x. x.id == u && t x.status)

abbrev pub rows_of : ℕ → List UnitRow → ℕ
rows_of u = count_by (λ x. x.id == u)

abbrev pub active_on : ℕ → List ReservationRow → ℕ
active_on u = count_by (λ r. r.unit_id == u && is_ativa r.status)

abbrev pub is_pending : ProposalRow → Bool
is_pending p = is_aceita p.status && not (is_some p.converted_to_sale_at)

-- Accepted proposals that have not become sales.
abbrev pub accepted_on : ℕ → List ProposalRow → ℕ
accepted_on u = count_by (λ p. p.unit_id == u && is_pending p)

abbrev pub sales_on : ℕ → List SaleRow → ℕ
sales_on u = count_by (λ s. s.unit_id == u && is_current s.status)

-- A reserved unit has at most one active reservation or pending accepted proposal and any other
-- has none; a sold unit has at most one current sale and any other has none.
pub record IsBalanced (us : List UnitRow) (rs : List ReservationRow) (ps : List ProposalRow)
    (ss : List SaleRow) : Type 0 where
  pub unit_ids : (u : ℕ) → rows_of u us ≤ 1
  pub proposal_ids : (p : ℕ) → count_by (λ x. x.id == p) ps ≤ 1
  pub sale_ids : (s : ℕ) → count_by (λ x. x.id == s) ss ≤ 1
  pub reserved : (u : ℕ) → active_on u rs + accepted_on u ps ≤ status_on is_reservada u us
  pub sold : (u : ℕ) → sales_on u ss ≤ status_on is_sold u us

abbrev pub IsConsistent : Database → Type 0
IsConsistent db = IsBalanced db.units db.reservations db.proposals db.sales
