-- ===== src/UnitHolds/Balance.antt =====
-- The moves of the commercial invariant: what a service may do to the four tables at once.
use harpia_api.Prelude.{
  ℕ, ◌+◌, ◌≤◌, ◌≡◌, ◌≢◌, true, some, List, arith, inl, inr, if◌then◌else◌, ◌==◌, Bool-cases, ==_iff,
}
use harpia_api.Table.{count_by, find_first}
use harpia_api.Store.{
  UnitStatus, UnitRow, ReservationRow, ProposalRow, SaleRow, is_reservada, is_disponivel,
}
use harpia_api.Reservations.Expiry.{unit_key}
use harpia_api.UnitHolds.Accounts.{IsBalanced, active_on, accepted_on, sales_on, rows_of, is_sold}
use harpia_api.UnitHolds.Status.{
  locked_rows, locked_status, status_on-written_ne, status_on-written_self, rows_of-written,
  written,
}

pub shrink :
    {us : List UnitRow} {rs rs' : List ReservationRow} {ps : List ProposalRow} {ss : List SaleRow}
    → IsBalanced us rs ps ss
    → ((u : ℕ) → active_on u rs' ≤ active_on u rs)
    → IsBalanced us rs' ps ss
shrink {us} {rs} {rs'} {ps} {ss} valid less = record {
  unit_ids = valid.unit_ids;
  proposal_ids = valid.proposal_ids;
  sale_ids = valid.sale_ids;
  reserved = λ u. omega (arith, less u, valid.reserved u);
  sold = valid.sold;
}

-- A write to the status of one locked unit: what must hold of the unit, and that nothing is taken
-- up on another.
pub rewrite_unit :
    {us : List UnitRow} {rs rs' : List ReservationRow} {ps ps' : List ProposalRow}
    {ss ss' : List SaleRow} (k : ℕ) (s : UnitStatus)
    → IsBalanced us rs ps ss
    → ((p : ℕ) → count_by (λ x. x.id == p) ps' ≤ 1)
    → ((s : ℕ) → count_by (λ x. x.id == s) ss' ≤ 1)
    → active_on k rs' + accepted_on k ps' ≤ (if is_reservada s then rows_of k us else 0)
    → sales_on k ss' ≤ (if is_sold s then rows_of k us else 0)
    → ((u : ℕ) → u ≢ k → active_on u rs' + accepted_on u ps' ≤ active_on u rs + accepted_on u ps)
    → ((u : ℕ) → u ≢ k → sales_on u ss' ≤ sales_on u ss)
    → IsBalanced (written k s us) rs' ps' ss'
rewrite_unit {us} {rs} {rs'} {ps} {ps'} {ss} {ss'} k s valid ids sale_ids hr hs others others_sold =
    record {
      unit_ids = λ u. omega (arith, rows_of-written is_sold k s us u, valid.unit_ids u);
      proposal_ids = ids;
      sale_ids = sale_ids;
      reserved = λ u. elim (Bool-cases (u == k)) [
        | inl e ↦
            rw ((==_iff u k).0 e) (omega (arith, status_on-written_self is_reservada k s us, hr))
        | inr e ↦ omega (
          arith,
          status_on-written_ne is_reservada k s us u (ground arith),
          others u (ground arith),
          valid.reserved u,
        )
      ];
      sold = λ u. elim (Bool-cases (u == k)) [
        | inl e ↦ rw ((==_iff u k).0 e) (omega (arith, status_on-written_self is_sold k s us, hs))
        | inr e ↦ omega (
          arith,
          status_on-written_ne is_sold k s us u (ground arith),
          others_sold u (ground arith),
          valid.sold u,
        )
      ];
    }

-- A reserved unit is released together with its one active reservation.
pub release :
    {us : List UnitRow} {rs rs' : List ReservationRow} {ps : List ProposalRow} {ss : List SaleRow}
    {x : UnitRow} (k org : ℕ)
    → IsBalanced us rs ps ss
    → find_first (unit_key k org) us ≡ some x
    → is_reservada x.status ≡ true
    → active_on k rs' + 1 ≤ active_on k rs
    → ((u : ℕ) → active_on u rs' ≤ active_on u rs)
    → IsBalanced (written k UnitStatus.disponivel us) rs' ps ss
release {us} {rs} {rs'} {ps} {ss} {x} k org valid found is fewer less =
    rewrite_unit k UnitStatus.disponivel valid valid.proposal_ids valid.sale_ids
      (ground (
        arith,
        fewer,
        valid.reserved k,
        locked_status is_reservada k org us (valid.unit_ids k) found,
      ))
      (ground (arith, valid.sold k, locked_status is_sold k org us (valid.unit_ids k) found))
      (λ u ne. omega (arith, less u)) (λ u ne. omega arith)

-- An available unit takes a first active reservation.
pub reserve :
    {us : List UnitRow} {rs rs' : List ReservationRow} {ps : List ProposalRow} {ss : List SaleRow}
    {x : UnitRow} (k org : ℕ)
    → IsBalanced us rs ps ss
    → find_first (unit_key k org) us ≡ some x
    → is_disponivel x.status ≡ true
    → active_on k rs' ≤ active_on k rs + 1
    → ((u : ℕ) → u ≢ k → active_on u rs' ≤ active_on u rs)
    → IsBalanced (written k UnitStatus.reservada us) rs' ps ss
reserve {us} {rs} {rs'} {ps} {ss} {x} k org valid found is more others =
    rewrite_unit k UnitStatus.reservada valid valid.proposal_ids valid.sale_ids
      (ground (
        arith,
        more,
        valid.reserved k,
        locked_rows k org us found,
        locked_status is_reservada k org us (valid.unit_ids k) found,
      ))
      (ground (arith, valid.sold k, locked_status is_sold k org us (valid.unit_ids k) found))
      (λ u ne. omega (arith, others u ne)) (λ u ne. omega arith)
