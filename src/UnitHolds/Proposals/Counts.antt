-- ===== src/UnitHolds/Proposals/Counts.antt =====
-- How updates of proposals and reservations move the counts of the commercial invariant.
use harpia_api.Prelude.{
  ℕ, ◌+◌, ◌≤◌, ◌≡◌, refl, true, false, ◌&&◌, not, some, List, [], ◌∷◌, ◌++◌, arith, ◌==◌,
  if◌then◌else◌, Bool-cases, inl, inr,
}
use harpia_api.Table.{
  find_first, modify, count_by, count_by-append, count_by-find_first, count_by-modify,
  count_by-modify_le, count_by-modify_same, count_by_mono, count_by_split, count_by_none,
}
use harpia_api.Store.{
  UnitStatus, UnitRow, ReservationRow, ProposalRow, SaleRow, Actor, is_ativa, is_reservada,
  is_disponivel,
}
use harpia_api.Reservations.Expiry.{unit_key}
use harpia_api.Reservations.Requests.{reservation_key, converted}
use harpia_api.Proposals.Expiry.{proposal_key}
use harpia_api.Proposals.Acceptance.{accepted}
use harpia_api.UnitHolds.Accounts.{IsBalanced, is_pending, active_on, accepted_on, is_sold}
use harpia_api.UnitHolds.Balance.{rewrite_unit}
use harpia_api.UnitHolds.Status.{locked_rows, locked_status, written}

-- An update of a proposal that does not accept it.
pub rewrite_proposal :
    {us : List UnitRow} {rs : List ReservationRow} {ps : List ProposalRow} {ss : List SaleRow}
    (id : ℕ) (f : ProposalRow → ProposalRow)
    → ((p : ProposalRow) → (f p).id ≡ p.id)
    → ((p : ProposalRow) → (f p).unit_id ≡ p.unit_id)
    → ((p : ProposalRow) → is_pending (f p) ≡ true → is_pending p ≡ true)
    → IsBalanced us rs ps ss
    → IsBalanced us rs (modify (λ p. p.id == id) f ps) ss
rewrite_proposal {us} {rs} {ps} {ss} id f same_id same_unit pending valid = record {
  unit_ids = valid.unit_ids;
  sale_ids = valid.sale_ids;
  proposal_ids = λ k. omega (
    arith,
    valid.proposal_ids k,
    count_by-modify_same (λ p. p.id == id) (λ p. p.id == k) f ps (λ p h. rw (same_id p) refl),
  );
  reserved = λ u. omega (
    arith,
    valid.reserved u,
    count_by-modify_le (λ p. p.id == id) (λ p. p.unit_id == u && is_pending p) f ps
        (λ p h e. ground (arith, same_unit p, pending p, e)),
  );
  sold = valid.sold;
}

module _ (now : ℕ) (actor : Actor) (reservation_id id org : ℕ) (ps : List ProposalRow)
    (p : ProposalRow) (one : count_by (λ x. x.id == p.id) ps ≤ 1)
    (found : find_first (proposal_key id org) ps ≡ some p) where
  -- The row of an accepted proposal is on one unit.
  elsewhere : count_by (λ x. x.id == p.id && not (x.unit_id == p.unit_id)) ps ≡ 0
  elsewhere = ground (
    arith,
    one,
    count_by_split (λ x. x.id == p.id) (λ x. x.unit_id == p.unit_id) ps,
    count_by-find_first (proposal_key id org) (λ x. x.id == p.id && x.unit_id == p.unit_id) ps p
        found,
  )

  pub accepted_on-accepted :
      (u : ℕ)
      → accepted_on u (modify (λ x. x.id == p.id) (accepted now actor reservation_id) ps)
        ≤ accepted_on u ps + (if u == p.unit_id then 1 else 0)
  accepted_on-accepted u =
      let moved =
        count_by-modify (λ x. x.id == p.id) (λ x. x.unit_id == u && is_pending x)
          (accepted now actor reservation_id) ps in
      let entering = λ (x : ProposalRow).
        x.id == p.id && (x.unit_id == u && is_pending (accepted now actor reservation_id x)) in
      elim (Bool-cases (u == p.unit_id)) [
        | inl e ↦ rw e (
            omega (
              arith,
              moved,
              one,
              count_by_mono entering (λ x. x.id == p.id) ps (λ x h. ground arith),
            ))
        | inr e ↦ rw e (
            omega (
              arith,
              moved,
              elsewhere,
              count_by_mono entering (λ x. x.id == p.id && not (x.unit_id == p.unit_id)) ps
                  (λ x h. ground arith),
            ))
      ]

  accepted_ids :
      (k : ℕ)
      → count_by
          (λ x. x.id == k)
          (modify (λ x. x.id == p.id) (accepted now actor reservation_id) ps)
        ≡ count_by (λ x. x.id == k) ps
  accepted_ids k =
      count_by-modify_same (λ x. x.id == p.id) (λ x. x.id == k) (accepted now actor reservation_id)
        ps (λ x h. refl)

  -- An available unit goes to an accepted proposal, with a reservation that is converted at once.
  pub take_available :
      {us : List UnitRow} {rs : List ReservationRow} {ss : List SaleRow} {unit : UnitRow}
      (r : ReservationRow)
      → IsBalanced us rs ps ss
      → find_first (unit_key unit.id org) us ≡ some unit
      → unit.id ≡ p.unit_id
      → is_disponivel unit.status ≡ true
      → is_ativa r.status ≡ false
      → IsBalanced
          (written unit.id UnitStatus.reservada us)
          (rs ++ r ∷ [])
          (modify (λ x. x.id == p.id) (accepted now actor reservation_id) ps)
          ss
  take_available {us} {rs} {ss} {unit} r valid locked same free closed =
      rewrite_unit unit.id UnitStatus.reservada valid
        (λ k. omega (arith, accepted_ids k, valid.proposal_ids k)) valid.sale_ids
        (ground (
          arith,
          accepted_on-accepted unit.id,
          still unit.id,
          valid.reserved unit.id,
          locked_rows unit.id org us locked,
          locked_status is_reservada unit.id org us (valid.unit_ids unit.id) locked,
        ))
        (ground (
          arith,
          valid.sold unit.id,
          locked_status is_sold unit.id org us (valid.unit_ids unit.id) locked,
        ))
        (λ u ne. ground (arith, accepted_on-accepted u, still u, same)) (λ u ne. omega arith)
    where
      still : (u : ℕ) → active_on u (rs ++ r ∷ []) ≡ active_on u rs
      still u =
          ground (arith, count_by-append (λ x. x.unit_id == u && is_ativa x.status) rs (r ∷ []))

  -- A reserved unit passes from its active reservation to the accepted proposal.
  pub take_reserved :
      {us : List UnitRow} {rs : List ReservationRow} {ss : List SaleRow} (key : ℕ)
      (r : ReservationRow)
      → IsBalanced us rs ps ss
      → find_first (reservation_key key org) rs ≡ some r
      → is_ativa r.status ≡ true
      → r.unit_id ≡ p.unit_id
      → IsBalanced us
          (modify (λ x. x.id == r.id) (converted now actor) rs)
          (modify (λ x. x.id == p.id) (accepted now actor reservation_id) ps)
          ss
  take_reserved {us} {rs} {ss} key r valid held active same = record {
    unit_ids = valid.unit_ids;
    sale_ids = valid.sale_ids;
    proposal_ids = λ k. omega (arith, accepted_ids k, valid.proposal_ids k);
    reserved =
        λ u. ground (arith, accepted_on-accepted u, fewer u, holding u, valid.reserved u, same);
    sold = valid.sold;
  }
    where
      fewer :
          (u : ℕ)
          → active_on u (modify (λ x. x.id == r.id) (converted now actor) rs)
              + count_by (λ x. x.id == r.id && (x.unit_id == u && is_ativa x.status)) rs
            ≡ active_on u rs
      fewer u = omega (
        arith,
        count_by-modify (λ x. x.id == r.id) (λ x. x.unit_id == u && is_ativa x.status)
            (converted now actor) rs,
        count_by_none (λ x. x.id == r.id && (x.unit_id == u && false)) rs (λ x. ground arith),
      )

      holding :
          (u : ℕ)
          → (u == r.unit_id) ≡ true
          → 1 ≤ count_by (λ x. x.id == r.id && (x.unit_id == u && is_ativa x.status)) rs
      holding u e = count_by-find_first (reservation_key key org) _ rs r held (ground arith)
