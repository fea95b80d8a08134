-- ===== src/UnitHolds/Sales/Counts.antt =====
-- How a sale moves the counts of the commercial invariant.
use harpia_api.Prelude.{ℕ, ◌+◌, ◌≤◌, ◌≡◌, refl, true, ◌&&◌, some, List, [], ◌∷◌, ◌++◌, arith, ◌==◌}
use harpia_api.Table.{
  find_first, modify, count_by, count_by-append, count_by-find_first, count_by-modify,
  count_by-modify_le, count_by-modify_same, count_by_none,
}
use harpia_api.Store.{
  UnitStatus, UnitRow, ReservationRow, ProposalRow, SaleRow, Actor, is_ativa, is_reservada,
  is_current,
}
use harpia_api.Reservations.Expiry.{unit_key}
use harpia_api.Reservations.Requests.{converted}
use harpia_api.Proposals.Expiry.{proposal_key}
use harpia_api.Sales.Registration.{sold}
use harpia_api.UnitHolds.Accounts.{
  IsBalanced, is_pending, active_on, accepted_on, sales_on, is_sold,
}
use harpia_api.UnitHolds.Balance.{rewrite_unit}
use harpia_api.UnitHolds.Status.{locked_rows, locked_status, written}

-- A conversion takes up no unit.
pub active_on-converted :
    (id now : ℕ) (actor : Actor) (rs : List ReservationRow) (u : ℕ)
    → active_on u (modify (λ r. r.id == id) (converted now actor) rs) ≤ active_on u rs
active_on-converted id now actor rs u =
    count_by-modify_le (λ r. r.id == id) (λ r. r.unit_id == u && is_ativa r.status)
      (converted now actor) rs (λ r a b. ground arith)

module _ (now id org : ℕ) (actor : Actor) (ps : List ProposalRow) (p : ProposalRow)
    (found : find_first (proposal_key id org) ps ≡ some p) where
  -- A proposal that is sold no longer waits for a sale.
  accepted_on-sold :
      (u : ℕ)
      → accepted_on u (modify (λ x. x.id == p.id) (sold now actor) ps)
          + count_by (λ x. x.id == p.id && (x.unit_id == u && is_pending x)) ps
        ≡ accepted_on u ps
  accepted_on-sold u = omega (
    arith,
    count_by-modify (λ x. x.id == p.id) (λ x. x.unit_id == u && is_pending x) (sold now actor) ps,
    count_by_none (λ x. x.id == p.id && (x.unit_id == u && is_pending (sold now actor x))) ps
        (λ x. ground arith),
  )

  leaving :
      is_pending p ≡ true
      → 1 ≤ count_by (λ x. x.id == p.id && (x.unit_id == p.unit_id && is_pending x)) ps
  leaving pending =
      count_by-find_first (proposal_key id org)
        (λ x. x.id == p.id && (x.unit_id == p.unit_id && is_pending x)) ps p found (ground arith)

  -- A reserved unit passes from its accepted proposal to the sale.
  pub sell :
      {us : List UnitRow} {rs : List ReservationRow} {ss : List SaleRow} {unit : UnitRow}
      (new : SaleRow)
      → IsBalanced us rs ps ss
      → find_first (unit_key unit.id org) us ≡ some unit
      → p.unit_id ≡ unit.id
      → is_reservada unit.status ≡ true
      → is_pending p ≡ true
      → new.unit_id ≡ unit.id
      → count_by (λ s. s.id == new.id) ss ≡ 0
      → IsBalanced
          (written unit.id UnitStatus.vendida us)
          rs
          (modify (λ x. x.id == p.id) (sold now actor) ps)
          (ss ++ new ∷ [])
  sell {us} {rs} {ss} {unit} new valid locked same reserved pending placed fresh =
      rewrite_unit unit.id UnitStatus.vendida valid
        (λ k. omega (
          arith,
          valid.proposal_ids k,
          count_by-modify_same (λ x. x.id == p.id) (λ x. x.id == k) (sold now actor) ps
              (λ x h. refl),
        ))
        (λ k.
          ground (arith, valid.sale_ids k, fresh, count_by-append (λ s. s.id == k) ss (new ∷ [])))
        (ground (
          arith,
          accepted_on-sold unit.id,
          valid.reserved unit.id,
          valid.unit_ids unit.id,
          locked_status is_reservada unit.id org us (valid.unit_ids unit.id) locked,
          rw same at (leaving pending),
        ))
        (ground (
          arith,
          bought unit.id,
          valid.sold unit.id,
          locked_rows unit.id org us locked,
          locked_status is_sold unit.id org us (valid.unit_ids unit.id) locked,
        ))
        (λ u ne. omega (arith, accepted_on-sold u)) (λ u ne. ground (arith, bought u))
    where
      bought :
          (u : ℕ)
          → sales_on u (ss ++ new ∷ [])
            ≡ sales_on u ss + count_by (λ s. s.unit_id == u && is_current s.status) (new ∷ [])
      bought u = count_by-append (λ s. s.unit_id == u && is_current s.status) ss (new ∷ [])
