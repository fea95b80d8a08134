-- ===== src/Payables/Updates.antt =====
-- The changes of payables that src/finance/payables.service.ts and the constraints of the table refuse.
use Prim.{absurd}
use harpia_api.Prelude.{
  ℕ, ◌≤◌, ◌≡◌, refl, true, false, some, List, [], ◌∷◌, arith, ltb, ◌==◌, or_else, is_some, all_by,
  Bool-cases, inl, inr, ◌⊎◌, sym, ◌∙◌,
}
use harpia_api.Cash.Tables.{cash_of}
use mathlib.Core.Option.{some-injective}
use harpia_api.Table.{find_first, find_many, modify}
use harpia_api.Store.{
  PayableStatus, PayableRow, Database, Actor, Error, is_payable_allowed, payables_hold,
  Ensures-bind, Ensures-then, Ensures-write, Ensures-check, Ensures-transaction, thrown, Fails,
  Fails-Ensures, transaction_refused,
}
use harpia_api.Payables.Changes.{
  payable_key, UpdatePayableDto, updated_payable, updated_status, write_update, set_payable,
  update_payable,
}
use harpia_api.Payables.RowKeeps.{check_update-Ensures}

-- A row that the constraint does not allow is among the ones that it is tested on.
refused_row :
    (ps : List PayableRow) (id org : ℕ) (p : PayableRow) (f : PayableRow → PayableRow)
    → ((x : PayableRow) → (f x).id ≡ x.id)
    → find_first (payable_key id org) ps ≡ some p
    → is_payable_allowed (f p) ≡ false
    → all_by is_payable_allowed (find_many (λ x. x.id == id) (modify (λ x. x.id == id) f ps))
      ≡ false
refused_row [] id org p f same found off = cc
refused_row (x ∷ ps) id org p f same found off =
    ground (arith, same x, refused_row ps id org p f same)

updated_status_kinds :
    (amount paid : ℕ)
    → (updated_status amount paid ≡ PayableStatus.pago)
      ⊎ ((updated_status amount paid ≡ PayableStatus.parcial)
          ⊎ (updated_status amount paid ≡ PayableStatus.pendente))
updated_status_kinds amount paid = elim (Bool-cases (amount == paid)) [
  | inl e ↦ inl (rw e refl)
  | inr e ↦ elim (Bool-cases (ltb 0 paid)) [
    | inl s ↦ inr (inl (rw (e, s) refl))
    | inr s ↦ inr (inr (rw (e, s) refl))
  ]
]

closed_at :
    (p : PayableRow)
    → p.status ≡ PayableStatus.cancelado
    → is_payable_allowed p ≡ true
    → is_some p.cancelled_at ≡ true
closed_at p cancelled allowed = let h = rw cancelled at allowed in ground arith

module _ (dto : UpdatePayableDto) (existing p : PayableRow) where
  -- A change never writes the status of a cancelled payable, and leaves the time of its cancellation.
  closed_refused :
      is_some p.cancelled_at ≡ true → is_payable_allowed (updated_payable existing dto p) ≡ false
  closed_refused closed =
      elim (updated_status_kinds (or_else dto.original_amount existing.original_amount)
        existing.paid_amount) [
          | inl e ↦ rw e (ground arith)
          | inr (inl e) ↦ rw e (ground arith)
          | inr (inr e) ↦ rw e (ground arith)
        ]

  paid_refused :
      existing.paid_amount ≡ 0
      → 1 ≤ or_else dto.original_amount existing.original_amount
      → 1 ≤ p.paid_amount
      → is_payable_allowed (updated_payable existing dto p) ≡ false
  paid_refused unread amount paid =
      let nonzero : (or_else dto.original_amount existing.original_amount == 0) ≡ false =
        ground arith in
      rw unread (rw nonzero (ground arith))

-- The write of a change whose row was read while nothing was paid is refused, and undone, where the
-- payable has a payment or is cancelled by then.
pub write_update_stale :
    (id : ℕ) (actor : Actor) (dto : UpdatePayableDto) (existing p : PayableRow) (db : Database)
    → find_first (payable_key id actor.organization_id) db.payables ≡ some p
    → existing.paid_amount ≡ 0
    → 1 ≤ or_else dto.original_amount existing.original_amount
    → (1 ≤ p.paid_amount) ⊎ (is_some p.cancelled_at ≡ true)
    → write_update id actor existing dto db ≡ thrown Error.check_violation db
unfolding write_update
write_update_stale id actor dto existing p db found unread amount meanwhile =
    transaction_refused _ _ _ db (
      refused_row db.payables id actor.organization_id p (updated_payable existing dto) (λ x. refl)
        found off)
  where
    off : is_payable_allowed (updated_payable existing dto p) ≡ false
    off = elim meanwhile [
      | inl paid ↦ paid_refused dto existing p unread amount paid
      | inr closed ↦ closed_refused dto existing p closed
    ]

-- A payable that the services made, or that is cancelled, cannot be changed: the request throws and
-- leaves the tables of the finance services as they were.
pub update_payable_closed :
    (id : ℕ) (actor : Actor) (dto : UpdatePayableDto) (db : Database) (p : PayableRow)
    → find_first (payable_key id actor.organization_id) db.payables ≡ some p
    → (is_some p.source_type ≡ true)
      ⊎ ((p.status ≡ PayableStatus.cancelado) × (is_payable_allowed p ≡ true))
    → Fails (λ d. cash_of d ≡ cash_of db) (update_payable id actor dto db)
unfolding update_payable write_update
update_payable_closed id actor dto db p there closed = Fails-Ensures _ (
    Ensures-bind _ _ _ _ (check_update-Ensures (λ c. c ≡ cash_of db) db refl id actor dto)
      (λ r d (same, found, enough, manual). rw same (
        Ensures-then (λ _ _. ⊥) _ _ _
          (Ensures-transaction _ _
            (Ensures-write _ _ _
              (Ensures-check _ _ _ (λ allowed. absurd (contradiction r found manual allowed)) tt))
            refl)
          (λ _ d' bad. absurd bad))))
  where
    contradiction :
        (r : PayableRow)
        → find_first (payable_key id actor.organization_id) db.payables ≡ some r
        → is_some r.source_type ≡ false
        → payables_hold id (set_payable id (updated_payable r dto) db) ≡ true
        → ⊥
    contradiction r found manual allowed =
        let e : r ≡ p = some-injective _ _ (sym found ∙ there) in
        elim closed [
          | inl automatic ↦ cc (rw e at manual)
          | inr (cancelled, was) ↦
              let at_r : is_some r.cancelled_at ≡ true = rw e (closed_at p cancelled was) in
              cc (
                refused_row db.payables id actor.organization_id r (updated_payable r dto)
                    (λ x. refl) found (closed_refused dto r r at_r),
                allowed,
              )
        ]
