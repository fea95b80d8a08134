-- ===== src/Cash/Balance.antt =====
-- A payable of src/finance/payables.service.ts as an account of an amount that is owed, and what may
-- happen to it.
use mathlib.Core.Path.{subst}
use mathlib.Core.Option.{some-injective}
use harpia_api.Prelude.{
  ℕ, ◌+◌, ◌-◌, ◌≤◌, ◌<◌, ◌≡◌, refl, sym, ◌∙◌, ap, Bool, true, false, some, List, ◌++◌, [], ◌∷◌,
  ◌==◌, ltb, arith, if◌then◌else◌, Bool-cases, inl, inr,
}
use harpia_api.Table.{
  find_first, find_first_holds, find_first-modify, find_first-append, find_first_only, modify,
  count_by,
}
use harpia_api.Store.{PayableStatus, PayableRow, is_payable_pago}
use harpia_api.Ledger.{DebtStatus}
use harpia_api.Payables.Changes.{payable_key, updated_status, is_payable_cancelado}
use harpia_api.Payables.Payments.{payable_status, restored_status}
use harpia_api.Payables.Account.{payable_debt_status}

-- An amount that is owed, what is paid of it, and how it stands.
pub record Balance : Type 0 where
  pub owed : ℕ
  pub paid : ℕ
  pub state : DebtStatus

-- How an amount stands by what is paid of it.
abbrev pub standing : (paid owed : ℕ) → DebtStatus
standing paid owed =
    if paid == owed
    then DebtStatus.paid_off
    else if paid == 0
    then DebtStatus.pending
    else DebtStatus.partly_paid

abbrev pub is_due : DebtStatus → Bool
is_due DebtStatus.pending = true
is_due DebtStatus.partly_paid = true
is_due _ = false

abbrev pub balanced : (owed paid : ℕ) → Balance
balanced owed paid = record { owed = owed; paid = paid; state = standing paid owed }

-- What may happen to a balance.
pub data Move (b : Balance) : Balance → Type 0 where
  stay : Move b b
  pay :
      (n : ℕ)
      → 1 ≤ n
      → is_due b.state ≡ true
      → b.paid + n ≤ b.owed
      → Move b (balanced b.owed (b.paid + n))
  refund : (n : ℕ) → 1 ≤ n → n ≤ b.paid → Move b (balanced b.owed (b.paid - n))
  restate : (m : ℕ) → b.paid ≤ m → Move b (balanced m b.paid)
  cancel : b.paid ≡ 0 → Move b (record b { state = DebtStatus.cancelled })

abbrev pub balance : PayableRow → Balance
balance p = record {
  owed = p.original_amount;
  paid = p.paid_amount;
  state = payable_debt_status p.status;
}

-- Each payable is still there, and its balance moved at most once.
abbrev pub HasMoved : List PayableRow → List PayableRow → Type 0
HasMoved ps qs =
    (k : ℕ) (p : PayableRow)
    → find_first (λ x. x.id == k) ps ≡ some p
    → (q : PayableRow) × (find_first (λ x. x.id == k) qs ≡ some q) × Move (balance p) (balance q)

pub HasMoved-refl : (ps : List PayableRow) → HasMoved ps ps
HasMoved-refl ps k p found = (p, found, stay)

pub HasMoved-append : (ps : List PayableRow) (new : PayableRow) → HasMoved ps (ps ++ new ∷ [])
HasMoved-append ps new k p found =
    (p, find_first-append (λ x. x.id == k) ps (new ∷ []) p found, stay)

module _ (ps : List PayableRow) (id org : ℕ) (r : PayableRow)
    (ids : (k : ℕ) → count_by (λ x. x.id == k) ps ≤ 1)
    (found : find_first (payable_key id org) ps ≡ some r) where
  -- An update of the row that was found.
  pub HasMoved-modify :
      (f : PayableRow → PayableRow)
      → ((x : PayableRow) → (f x).id ≡ x.id)
      → Move (balance r) (balance (f r))
      → HasMoved ps (modify (λ x. x.id == r.id) f ps)
  HasMoved-modify f same move k p there =
      let after =
        find_first-modify (λ x. x.id == k) (λ x. x.id == r.id) f ps p
          (λ x. ap (λ n. n == k) (same x)) there in
      elim (Bool-cases (p.id == r.id)) [
        | inl own ↦
            let there' : find_first (λ x. x.id == k) ps ≡ some r =
              find_first_only (λ x. x.id == k) (payable_key id org) ps r (ids k) found
                (ground (arith, find_first_holds (λ x. x.id == k) ps p there)) in
            let e : p ≡ r = some-injective _ _ (sym there ∙ there') in
            (f p, after ∙ rw own refl, subst (λ y. Move (balance y) (balance (f y))) (sym e) move)
        | inr other ↦ (p, after ∙ rw other refl, stay)
      ]

-- The code's ways to compute the status agree with the one of a balance.
pub payable_status-standing :
    (paid owed : ℕ) → 1 ≤ paid → payable_debt_status (payable_status paid owed) ≡ standing paid owed
payable_status-standing paid owed some_paid = elim (Bool-cases (paid == owed)) [
  | inl e ↦ rw e refl
  | inr e ↦ rw e (ground arith)
]

pub restored_status-standing :
    (paid owed : ℕ) → paid < owed → payable_debt_status (restored_status paid) ≡ standing paid owed
restored_status-standing paid owed within = elim (Bool-cases (paid == 0)) [
  | inl e ↦ rw e (ground arith)
  | inr e ↦ rw e (ground arith)
]

pub updated_status-standing :
    (paid owed : ℕ) → payable_debt_status (updated_status owed paid) ≡ standing paid owed
updated_status-standing paid owed = elim (Bool-cases (owed == paid)) [
  | inl e ↦ rw e (ground arith)
  | inr e ↦
      rw e (elim (Bool-cases (ltb 0 paid)) [
        | inl s ↦ rw s (ground arith)
        | inr s ↦ rw s (ground arith)
      ])
]

pub is_due_lem :
    (s : PayableStatus)
    → is_payable_cancelado s ≡ false
    → is_payable_pago s ≡ false
    → is_due (payable_debt_status s) ≡ true
is_due_lem PayableStatus.pendente going owing = refl
is_due_lem PayableStatus.parcial going owing = refl
is_due_lem PayableStatus.pago going owing = cc
is_due_lem PayableStatus.cancelado going owing = cc

-- A balance is known by what is owed and paid, where it stands by them.
pub by_standing :
    {b : Balance} (owed paid : ℕ) (state : DebtStatus)
    → state ≡ standing paid owed
    → Move b (balanced owed paid)
    → Move b (record { owed = owed; paid = paid; state = state })
by_standing {b} owed paid state e move =
    subst (λ s. Move b (record { owed = owed; paid = paid; state = s })) (sym e) move
