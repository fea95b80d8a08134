-- ===== src/Sales/Repeats.antt =====
-- A repeated `convertProposal` of src/sales/sales.service.ts.
use mathlib.Core.Path.{subst}
use harpia_api.Prelude.{ℕ, ◌≡◌, refl, sym, Option, some, ◌&&◌, ◌==◌, is_value}
use harpia_api.Table.{find_first}
use harpia_api.Store.{
  UnitRow, ReservationRow, ProposalRow, SaleRow, Database, Actor, Action, done, thrown, ◌>>=◌, ◌>>◌,
  pure, Ensures, Ensures-get, Ensures-pure, Ensures-bind, Ensures-unique, Ensures-present,
  Ensures-commit, Succeeds, Succeeds-Ensures, or_raise,
}
use harpia_api.Reservations.Expiry.{unit_key}
use harpia_api.Proposals.Expiry.{proposal_key, lock_proposal}
use harpia_api.Proposals.Requests.{lock_optional_reservation}
use harpia_api.Sales.Shapes.{validate_buyer_shape, validate_commission_shape}
use harpia_api.Sales.Registration.{ConvertProposalToSaleDto, SaleSetting}
use harpia_api.Sales.Conversion.{
  convert_locked, convert_or_existing, lock_sale, sale_key, convert_proposal,
}

module _ {A B : Type 0} {Q : B → Database → Type 0} {E : Database → Type 0} where
  -- Calls whose end is known.
  Ensures-known :
      (m : Action A) (f : A → Action B) (db d : Database) (a : A)
      → m db ≡ done a d
      → Ensures Q E (f a d)
      → Ensures Q E ((m >>= f) db)
  unfolding ◌>>=◌
  Ensures-known m f db d a is h =
      subst (λ o. Ensures Q E (elim o [ done x y ↦ f x y | thrown e y ↦ thrown e y ])) (sym is) h

  Ensures-known_then :
      (m : Action A) (n : Action B) (db d : Database) (a : A)
      → m db ≡ done a d
      → Ensures Q E (n d)
      → Ensures Q E ((m >> n) db)
  unfolding ◌>>◌
  Ensures-known_then m n db d a is h =
      subst (λ o. Ensures Q E (elim o [ done x y ↦ n y | thrown e y ↦ thrown e y ])) (sym is) h

-- Converting a proposal that has a sale already gives that sale and changes nothing, for a request
-- whose buyers and commissions have a valid shape, where the proposal, its unit and its reservation
-- are there.
pub convert_proposal_again :
    (now : ℕ) (at : SaleSetting) (id : ℕ) (actor : Actor) (dto : ConvertProposalToSaleDto)
    (db : Database) (p : ProposalRow) (unit : UnitRow) (held : Option ReservationRow)
    (sale : SaleRow)
    → validate_buyer_shape dto.buyers db ≡ done tt db
    → validate_commission_shape dto.commissions db ≡ done tt db
    → find_first (proposal_key id actor.organization_id) db.proposals ≡ some p
    → find_first (unit_key p.unit_id actor.organization_id) db.units ≡ some unit
    → lock_optional_reservation p.reservation_id actor.organization_id db ≡ done held db
    → find_first
        (λ s. is_value s.proposal_id p.id && s.organization_id == actor.organization_id)
        db.sales
      ≡ some sale
    → find_first (sale_key sale.id actor.organization_id) db.sales ≡ some sale
    → Succeeds (λ s d. (s ≡ sale) × (d ≡ db)) (convert_proposal now at id actor dto db)
unfolding convert_proposal lock_proposal convert_locked convert_or_existing lock_sale or_raise pure
convert_proposal_again now at id actor dto db p unit held sale buyers commissions found placed
      reserved sold there =
    Succeeds-Ensures _ (
      Ensures-known_then _ _ _ db tt buyers (
        Ensures-known_then _ _ _ db tt commissions (
          Ensures-present _ _ _ _ p found (
            Ensures-unique _ _ _ (
              Ensures-bind (λ i d. (i ≡ sale.id) × (d ≡ db)) _ _ _
                (Ensures-commit _ _ (
                  Ensures-present _ _ _ _ unit placed (
                    Ensures-known _ _ _ db held reserved (
                      Ensures-present _ _ _ _ p found
                        (Ensures-get _ _ _ (rw sold (Ensures-pure _ _ (refl, refl))))))))
                (λ i d (same, still).
                  rw same
                    (rw still (Ensures-get _ _ _ (rw there (Ensures-pure _ _ (refl, refl)))))))))))
