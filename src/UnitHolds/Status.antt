-- ===== src/UnitHolds/Status.antt =====
-- Reading and writing the status of a locked unit, in terms of the counts.
use harpia_api.Prelude.{
  ℕ, ◌≤◌, ◌≡◌, ◌≢◌, refl, Bool, ◌&&◌, not, some, List, [], ◌∷◌, arith, bit, ◌==◌, if◌then◌else◌,
}
use harpia_api.Table.{
  find_first-modify, find_first, modify, find_first_holds, count_by-find_first, count_by_split,
  count_by-modify_same, count_by_mono,
}
use harpia_api.Store.{UnitStatus, UnitRow}
use harpia_api.Reservations.Expiry.{unit_key}
use harpia_api.UnitHolds.Accounts.{status_on, rows_of}

pub locked_id :
    (k org : ℕ) (us : List UnitRow) {x : UnitRow}
    → find_first (unit_key k org) us ≡ some x
    → x.id ≡ k
locked_id k org us {x} e = ground (arith, find_first_holds (unit_key k org) us x e)

-- A locked unit is its only row, so its status is what the counts show.
pub locked_status :
    (t : UnitStatus → Bool) (k org : ℕ) (us : List UnitRow) {x : UnitRow}
    → rows_of k us ≤ 1
    → find_first (unit_key k org) us ≡ some x
    → status_on t k us ≡ bit (t x.status)
locked_status t k org us {x} one e = ground (
  arith,
  find_first_holds (unit_key k org) us x e,
  count_by_split (λ u. u.id == k) (λ u. t u.status) us,
  count_by-find_first (unit_key k org) (λ u. u.id == k && t u.status) us x e,
  count_by-find_first (unit_key k org) (λ u. u.id == k && not (t u.status)) us x e,
)

pub locked_rows :
    (k org : ℕ) (us : List UnitRow) {x : UnitRow}
    → find_first (unit_key k org) us ≡ some x
    → 1 ≤ rows_of k us
locked_rows k org us {x} e =
    count_by-find_first (unit_key k org) (λ u. u.id == k) us x e
      (ground (arith, find_first_holds (unit_key k org) us x e))

abbrev pub written : ℕ → UnitStatus → List UnitRow → List UnitRow
written k s us = modify (λ u. u.id == k) (λ u. record u { status = s }) us

module _ (t : UnitStatus → Bool) (k : ℕ) (s : UnitStatus) (us : List UnitRow) where
  -- Writing the status of one unit moves no count of another.
  pub status_on-written_ne : (u : ℕ) → u ≢ k → status_on t u (written k s us) ≡ status_on t u us
  status_on-written_ne u ne =
      count_by-modify_same (λ x. x.id == k) (λ x. x.id == u && t x.status)
        (λ x. record x { status = s }) us (λ r e. ground arith)

  pub rows_of-written : (u : ℕ) → rows_of u (written k s us) ≡ rows_of u us
  rows_of-written u =
      count_by-modify_same (λ x. x.id == k) (λ x. x.id == u) (λ x. record x { status = s }) us
        (λ r e. refl)

pub status_on-written_self :
    (t : UnitStatus → Bool) (k : ℕ) (s : UnitStatus) (us : List UnitRow)
    → status_on t k (written k s us) ≡ (if t s then rows_of k us else 0)
status_on-written_self t k s [] = ground arith
status_on-written_self t k s (x ∷ us) = ground (arith, status_on-written_self t k s us)

-- The locked row after a write to its status.
pub locked-written :
    (k org : ℕ) (s : UnitStatus) (us : List UnitRow) (x : UnitRow)
    → find_first (unit_key k org) us ≡ some x
    → find_first (unit_key k org) (written k s us) ≡ some (record x { status = s })
locked-written k org s us x e = ground (
  arith,
  find_first-modify (unit_key k org) (λ u. u.id == k) (λ u. record u { status = s }) us x
      (λ u. refl) e,
  find_first_holds (unit_key k org) us x e,
)

pub status_on-rows_of :
    (t : UnitStatus → Bool) (u : ℕ) (us : List UnitRow) → status_on t u us ≤ rows_of u us
status_on-rows_of t u us =
    count_by_mono (λ x. x.id == u && t x.status) (λ x. x.id == u) us (λ r h. ground arith)
