-- ===== src/Payables/RowKeeps.antt =====
-- `create`, `update` and `cancel` of src/finance/payables.service.ts and a property of the tables of the
-- finance services that their updates keep.
use harpia_api.Prelude.{
  ℕ, ◌≡◌, refl, false, not, some, ◌∷◌, [], ◌++◌, ltb, ◌==◌, or_else, Bool-cases, inl, inr, is_some,
}
use harpia_api.Table.{find_first, modify}
use harpia_api.Store.{
  PayableRow, Database, Actor, state_of, Ensures, state_of-Ensures, Ensures-pure, Ensures-get,
  Ensures-guard, Ensures-guarded, Ensures-write, Ensures-bind, Ensures-then, Ensures-found,
  Ensures-transaction, Ensures-recorded_one, Ensures-check,
}
use harpia_api.Cash.Tables.{CashTables, cash_of}
use harpia_api.Payables.Setup.{ensure_organization}
use harpia_api.Payables.Changes.{
  payable_key, lock_payable, CreatePayableDto, UpdatePayableDto, PayableReferences,
  assert_references, new_payable, create_payable, check_update, write_update, update_payable,
  updated_payable, cancel_payable, close_payable, cancelled_payable, is_payable_cancelado,
}
-- The tables after `recordPayment`.
use harpia_api.Payables.Keeps.{find_payable-Keeps}

module _ (P : CashTables → Type 0) (db : Database) (valid : P (cash_of db)) where
  pub cancel_payable-Keeps :
      (now id : ℕ) (actor : Actor)
      → ((r : PayableRow)
          → find_first (payable_key id actor.organization_id) db.payables ≡ some r
          → not (r.paid_amount == 0) ≡ false
          → P (record (cash_of db) {
            payables = modify (λ x. x.id == id) (cancelled_payable now) db.payables;
          }))
      → P (cash_of (state_of (cancel_payable now id actor db)))
  unfolding cancel_payable close_payable lock_payable
  cancel_payable-Keeps now id actor step =
      state_of-Ensures (λ d. P (cash_of d)) _
        (Ensures-then (λ _ d. P (cash_of d)) _ _ _
          (Ensures-transaction _ _
            (Ensures-found _ _ _ _
              (λ r found.
                Ensures-guard _ _ _ _
                  (λ _.
                    Ensures-guard _ _ _ _
                      (λ unpaid. elim (Bool-cases (is_payable_cancelado r.status)) [
                        | inl e ↦ rw e (Ensures-pure tt db valid)
                        | inr e ↦
                            rw e
                              (Ensures-write _ _ _ (Ensures-recorded_one _ _ (step r found unpaid)))
                      ])
                      tt)
                  tt)
              tt)
            valid)
          (λ _ d. find_payable-Keeps P db valid id actor.organization_id d))

  assert_references-Keeps :
      (org : ℕ) (refs : PayableReferences) (d : Database)
      → P (cash_of d)
      → Ensures (λ _ d'. d' ≡ d) (λ d'. P (cash_of d')) (assert_references org refs d)
  unfolding assert_references
  assert_references-Keeps org refs d h = Ensures-get _ _ _ (
      Ensures-get _ _ _ (
        Ensures-get _ _ _ (
          Ensures-get _ _ _ (
            Ensures-get _ _ _ (
              Ensures-get _ _ _ (
                Ensures-guard _ _ _ _
                  (λ _.
                    Ensures-guard _ _ _ _
                      (λ _.
                        Ensures-guard _ _ _ _
                          (λ _.
                            Ensures-guard _ _ _ _
                              (λ _.
                                Ensures-guard _ _ _ _
                                  (λ _.
                                    Ensures-guard _ _ _ _
                                      (λ _.
                                        Ensures-guard _ _ _ _
                                          (λ _. Ensures-guarded _ _ _ (λ _. refl) h) h)
                                      h)
                                  h)
                              h)
                          h)
                      h)
                  h))))))

  pub create_payable-Keeps :
      (id : ℕ) (actor : Actor) (dto : CreatePayableDto)
      → P (record (cash_of db) {
        payables = db.payables ++ new_payable id actor.organization_id dto ∷ [];
      })
      → P (cash_of (state_of (create_payable id actor dto db)))
  unfolding create_payable ensure_organization
  create_payable-Keeps id actor dto new =
      state_of-Ensures (λ d. P (cash_of d)) _
        (Ensures-write _ _ _ (
          Ensures-then (λ _ d. d ≡ _) _ _ _
            (assert_references-Keeps actor.organization_id dto.references _ valid)
            (λ _ d same. rw same (
              Ensures-then (λ _ d'. P (cash_of d')) _ _ _
                (Ensures-transaction _ _ (Ensures-write _ _ _ (Ensures-recorded_one _ _ new)) valid)
                (λ _ d'. find_payable-Keeps P db valid id actor.organization_id d')))))

  -- The row that `update` works on is the one that it read and checked.
  pub check_update-Ensures :
      (id : ℕ) (actor : Actor) (dto : UpdatePayableDto)
      → Ensures
          (λ r d.
            (d ≡ db)
            × (find_first (payable_key id actor.organization_id) db.payables ≡ some r)
            × (ltb (or_else dto.original_amount r.original_amount) r.paid_amount ≡ false)
            × (is_some r.source_type ≡ false))
          (λ d. P (cash_of d))
          (check_update id actor dto db)
  unfolding check_update lock_payable
  check_update-Ensures id actor dto =
      Ensures-found _ _ _ _
        (λ r found.
          Ensures-guard _ _ _ _
            (λ manual.
              Ensures-then (λ _ d. d ≡ db) _ _ _
                (assert_references-Keeps actor.organization_id _ db valid)
                (λ _ d same. rw same (
                  Ensures-guard _ _ _ _
                    (λ enough.
                      Ensures-guard _ _ _ _ (λ _. Ensures-pure _ _ (refl, found, enough, manual))
                        valid)
                    valid)))
            valid)
        valid

  pub update_payable-Keeps :
      (id : ℕ) (actor : Actor) (dto : UpdatePayableDto)
      → ((r : PayableRow)
          → find_first (payable_key id actor.organization_id) db.payables ≡ some r
          → ltb (or_else dto.original_amount r.original_amount) r.paid_amount ≡ false
          → P (record (cash_of db) {
            payables = modify (λ x. x.id == id) (updated_payable r dto) db.payables;
          }))
      → P (cash_of (state_of (update_payable id actor dto db)))
  unfolding update_payable write_update
  update_payable-Keeps id actor dto step =
      state_of-Ensures (λ d. P (cash_of d)) _
        (Ensures-bind _ _ _ _ (check_update-Ensures id actor dto)
          (λ r d (same, found, enough, manual). rw same (
            Ensures-then (λ _ d'. P (cash_of d')) _ _ _
              (Ensures-transaction _ _
                (Ensures-write _ _ _
                  (Ensures-check _ _ _ (λ _. Ensures-recorded_one _ _ (step r found enough)) tt))
                valid)
              (λ _ d'. find_payable-Keeps P db valid id actor.organization_id d'))))
