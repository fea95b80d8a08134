-- ===== src/UnitHolds/Proposals/Drafting.antt =====
-- `create` and `createVersion` of src/proposals/proposals.service.ts and the commercial invariant.
use harpia_api.Prelude.{
  ℕ, ◌≡◌, refl, false, ◌&&◌, Option, none, some, List, [], ◌∷◌, ◌++◌, arith, ◌==◌,
}
use harpia_api.Prelude.Int.{ℤ}
use harpia_api.Table.{count_by, count_by-append}
use harpia_api.Store.{
  UnitRow, ReservationRow, ProposalRow, SaleRow, SalesProposalStatus, UnitPriceRow, Database, Actor,
  Action, state_of, is_aceita, ◌>>=◌, ◌>>◌, Ensures, state_of-Ensures, Ensures-found, Ensures-get,
  Ensures-row, Ensures-row_then, Ensures-then, Ensures-bind, Ensures-transaction, Ensures-write,
  Ensures-pure, Ensures-guard, Ensures-guarded, Ensures-recorded_many, Ensures-recorded_one,
}
use harpia_api.Proposals.Pricing.{ConditionDto, Pricing, validate_pricing}
use harpia_api.Proposals.Requests.{
  CreateProposalDto, CreateProposalVersionDto, create, create_version, draft, revise, revised,
  revised_status, find_active_price, validate_reservation, new_proposal,
}
use harpia_api.UnitHolds.Accounts.{IsBalanced, IsConsistent, is_pending}
use harpia_api.UnitHolds.Reservations.Expiry.{Ensures-lock_unit}
use harpia_api.UnitHolds.Reservations.Create.{Ensures-check_opportunity}
use harpia_api.UnitHolds.Proposals.Counts.{rewrite_proposal}
use harpia_api.UnitHolds.Proposals.Expiry.{Ensures-lock_proposal, find_one-Ensures}
use harpia_api.UnitHolds.Proposals.Acceptance.{lock_optional-Ensures, normalize_if_reserved-Ensures}

module _ {B : Type 0} {Q : B → Database → Type 0} where
  Ensures-validate_reservation :
      (now : ℕ) (o : Option ReservationRow) (dto : CreateProposalDto) (unit : UnitRow)
      (n : Action B) (db : Database)
      → Ensures Q (λ _. Unit {0}) (n db)
      → Ensures Q (λ _. Unit {0}) ((validate_reservation now o dto unit >> n) db)
  unfolding validate_reservation
  Ensures-validate_reservation now none dto unit n db h = Ensures-guard _ _ _ _ (λ _. h) tt
  Ensures-validate_reservation now (some r) dto unit n db h =
      Ensures-then (λ _ d. d ≡ db) _ _ _
        (Ensures-guard _ _ _ _
          (λ _. Ensures-guard _ _ _ _ (λ _. Ensures-guarded _ _ _ (λ _. refl) tt) tt) tt)
        (λ _ d e. rw e h)

  Ensures-find_active_price :
      (org unit_id : ℕ) (f : UnitPriceRow → Action B) (db : Database)
      → ((a : UnitPriceRow) → Ensures Q (λ _. Unit {0}) (f a db))
      → Ensures Q (λ _. Unit {0}) ((find_active_price org unit_id >>= f) db)
  unfolding find_active_price
  Ensures-find_active_price org unit_id f db h = Ensures-found _ _ _ _ (λ a _. h a) tt

  Ensures-validate_pricing :
      (base discount : ℤ) (cs : List ConditionDto) (f : Pricing → Action B) (db : Database)
      → ((a : Pricing) → Ensures Q (λ _. Unit {0}) (f a db))
      → Ensures Q (λ _. Unit {0}) ((validate_pricing base discount cs >>= f) db)
  unfolding validate_pricing
  Ensures-validate_pricing base discount cs f db h =
      Ensures-bind (λ _ d. d ≡ db) _ _ _
        (Ensures-guard _ _ _ _
          (λ _.
            Ensures-guard _ _ _ _
              (λ _.
                Ensures-guard _ _ _ _ (λ _. Ensures-guard _ _ _ _ (λ _. Ensures-pure _ _ refl) tt)
                  tt)
              tt)
          tt)
        (λ a d e. rw e (h a))

-- A proposal that is not accepted takes nothing up.
insert-IsBalanced :
    {us : List UnitRow} {rs : List ReservationRow} {ps : List ProposalRow} {ss : List SaleRow}
    (p : ProposalRow)
    → count_by (λ x. x.id == p.id) ps ≡ 0
    → is_pending p ≡ false
    → IsBalanced us rs ps ss
    → IsBalanced us rs (ps ++ p ∷ []) ss
insert-IsBalanced {us} {rs} {ps} {ss} p fresh idle valid = record {
  unit_ids = valid.unit_ids;
  sale_ids = valid.sale_ids;
  proposal_ids = λ k.
      ground (arith, valid.proposal_ids k, fresh, count_by-append (λ x. x.id == k) ps (p ∷ []));
  reserved = λ u. ground (
    arith,
    valid.reserved u,
    idle,
    count_by-append (λ x. x.unit_id == u && is_pending x) ps (p ∷ []),
  );
  sold = valid.sold;
}

draft-Ensures :
    (now id version_id : ℕ) (actor : Actor) (dto : CreateProposalDto) (db : Database)
    → count_by (λ p. p.id == id) db.proposals ≡ 0
    → IsConsistent db
    → Ensures (λ _. IsConsistent) (λ _. Unit {0}) (draft now id version_id actor dto db)
unfolding draft
draft-Ensures now id version_id actor dto db fresh valid =
    Ensures-lock_unit _ _ _ _
      (λ unit _ _.
        Ensures-bind _ _ _ _ (lock_optional-Ensures dto.reservation_id actor.organization_id db tt)
          (λ o d (same, _). rw same (
            Ensures-validate_reservation now o dto unit _ db (
              Ensures-get _ _ _ (
                Ensures-row_then _ _ _ _
                  (λ _ _.
                    Ensures-check_opportunity _ _ _ _ _ _
                      (Ensures-find_active_price _ _ _ _ (λ price.
                        Ensures-validate_pricing _ _ _ _ _ (λ pricing. Ensures-write _ _ _ (
                          Ensures-write _ _ _ (
                            Ensures-recorded_many _ _ (
                              insert-IsBalanced (new_proposal id version_id actor unit dto) fresh
                                refl valid))))))
                      tt)
                  tt)))))
      tt

-- Whatever becomes of a request to draft a proposal, the tables stay balanced; the identifier of the
-- new proposal is new.
pub drafting-IsConsistent :
    (now id version_id : ℕ) (actor : Actor) (dto : CreateProposalDto) (db : Database)
    → count_by (λ p. p.id == id) db.proposals ≡ 0
    → IsConsistent db
    → IsConsistent (state_of (create now id version_id actor dto db))
unfolding create
drafting-IsConsistent now id version_id actor dto db fresh valid = state_of-Ensures IsConsistent _ (
    Ensures-guard _ _ _ _
      (λ _.
        Ensures-then _ _ _ _
          (normalize_if_reserved-Ensures now actor.organization_id dto.reservation_id dto.unit_id db
            valid)
          (λ _ d (known, same).
            Ensures-then (λ _. IsConsistent) _ _ _
              (Ensures-transaction _ _
                (draft-Ensures now id version_id actor dto d (rw same fresh) known) known)
              (λ _ d'. find_one-Ensures now id actor.organization_id d')))
      valid)

revised_status-is_aceita : (s : SalesProposalStatus) → is_aceita (revised_status s) ≡ false
revised_status-is_aceita s = ground arith

revise-Ensures :
    (id version_id : ℕ) (actor : Actor) (dto : CreateProposalVersionDto) (db : Database)
    → IsConsistent db
    → Ensures (λ _. IsConsistent) (λ _. Unit {0}) (revise id version_id actor dto db)
unfolding revise
revise-Ensures id version_id actor dto db valid =
    Ensures-lock_proposal _ _ _ _
      (λ p _.
        Ensures-guard _ _ _ _
          (λ _.
            Ensures-row _ _ _ _
              (λ current_id _. Ensures-get _ _ _ (
                Ensures-row _ _ _ _
                  (λ current _. Ensures-validate_pricing _ _ _ _ _ (λ pricing. Ensures-write _ _ _ (
                    Ensures-write _ _ _ (
                      Ensures-recorded_one _ _ (
                        rewrite_proposal p.id (revised version_id dto.valid_until p.status)
                          (λ x. refl) (λ x. refl)
                          (λ x h. ground (arith, revised_status-is_aceita p.status)) valid)))))
                  tt))
              tt)
          tt)
      tt

-- Whatever becomes of a request to revise a proposal, the tables stay balanced.
pub create_version-IsConsistent :
    (now id version_id : ℕ) (actor : Actor) (dto : CreateProposalVersionDto) (db : Database)
    → IsConsistent db
    → IsConsistent (state_of (create_version now id version_id actor dto db))
unfolding create_version
create_version-IsConsistent now id version_id actor dto db valid = state_of-Ensures IsConsistent _ (
    Ensures-guard _ _ _ _
      (λ _.
        Ensures-then (λ _. IsConsistent) _ _ _
          (Ensures-transaction _ _ (revise-Ensures id version_id actor dto db valid) valid)
          (λ _ d. find_one-Ensures now id actor.organization_id d))
      valid)
