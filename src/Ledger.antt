-- ===== src/Ledger.antt =====
-- What debts and their payments have to agree on, for the receivables of
-- src/receivables/receivables.service.ts and the payables of src/finance/payables.service.ts.
pub mod Updates
use harpia_api.Prelude.{
  ℕ, ◌≤◌, ◌<◌, ◌≡◌, ◌&&◌, not, Option, List, ◌==◌, is_some, is_value, if◌then◌else◌, sum_by, All,
}
use harpia_api.Table.{count_by}
use harpia_api.Store.{PaymentRow}

-- What the status enums of receivables and payables have in common.
pub data DebtStatus : Type 0 where
  pending partly_paid paid_off cancelled : DebtStatus

-- A table of debts: its columns, and the debt that a payment is for.
pub record Debts (R : Type 0) : Type 0 where
  pub id_of : R → ℕ
  pub owed : R → ℕ
  pub paid : R → ℕ
  pub state : R → DebtStatus
  pub debt_of : PaymentRow → Option ℕ

-- The status that an amount paid allows.
abbrev pub HasStatus : DebtStatus → ℕ → ℕ → Type 0
HasStatus pending paid owed = paid ≡ 0
HasStatus partly_paid paid owed = (1 ≤ paid) × (paid < owed)
HasStatus paid_off paid owed = paid ≡ owed
HasStatus cancelled paid owed = paid ≡ 0

module _ {R : Type 0} (D : Debts R) where
  -- An amount counts towards its debt until it is reversed.
  abbrev pub counts_for : ℕ → PaymentRow → ℕ
  counts_for k p = if is_value (D.debt_of p) k && not (is_some p.reversed_at) then p.amount else 0

  abbrev pub paid_for : ℕ → List PaymentRow → ℕ
  paid_for k = sum_by (counts_for k)

  pub record IsSettled (ps : List PaymentRow) (r : R) : Type 0 where
    pub paid : D.paid r ≡ paid_for (D.id_of r) ps
    pub within : D.paid r ≤ D.owed r
    pub status : HasStatus (D.state r) (D.paid r) (D.owed r)

  pub record IsAccount (rs : List R) (ps : List PaymentRow) : Type 0 where
    pub ids : (k : ℕ) → count_by (λ r. D.id_of r == k) rs ≤ 1
    pub payment_ids : (k : ℕ) → count_by (λ p. p.id == k) ps ≤ 1
    pub settled : All (IsSettled ps) rs
    pub positive : All (λ p. 1 ≤ p.amount) ps
    -- The foreign key of the payments.
    pub linked : (k : ℕ) → count_by (λ r. D.id_of r == k) rs ≡ 0 → paid_for k ps ≡ 0
