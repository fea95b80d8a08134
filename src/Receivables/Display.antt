-- ===== src/Receivables/Display.antt =====
-- The status that a receivable or a payable is shown with: src/receivables/receivable-status.ts and
-- src/finance/payable-status.ts.
use harpia_api.Prelude.{
  ℕ, ◌+◌, ◌*◌, ◌≤◌, ◌<◌, ◌≡◌, refl, ◌⊎◌, ◌↔◌, inl, inr, Bool, true, false, ◌&&◌, arith, ltb,
  Bool-cases, if◌then◌else◌,
}
use harpia_api.Dates.{UtcDate, IsDate, days_in_month, time, start_of_day, month_index}
use harpia_api.Store.{ReceivableStatus, PayableStatus}

-- A stored status or 'ATRASADO'.
pub data DisplayStatus (S : Type 0) : Type 0 where
  stored : S → DisplayStatus S
  atrasado : DisplayStatus S

-- The tests of the status and the due date.
abbrev pub awaits_receipt : ReceivableStatus → Bool
awaits_receipt ReceivableStatus.pendente = true
awaits_receipt ReceivableStatus.parcial = true
awaits_receipt _ = false

abbrev pub awaits_payment : PayableStatus → Bool
awaits_payment PayableStatus.pendente = true
awaits_payment PayableStatus.parcial = true
awaits_payment _ = false

unfoldable pub is_past : UtcDate → UtcDate → Bool
is_past due_date reference_date = ltb (time due_date) (time (start_of_day reference_date))

abbrev pub get_computed_receivable_status :
    ReceivableStatus → UtcDate → UtcDate → DisplayStatus ReceivableStatus
get_computed_receivable_status status due_date reference_date =
    if awaits_receipt status && is_past due_date reference_date then atrasado else stored status

abbrev pub get_computed_payable_status :
    PayableStatus → UtcDate → UtcDate → DisplayStatus PayableStatus
get_computed_payable_status status due_date now =
    if awaits_payment status && is_past due_date now then atrasado else stored status

-- `d` is a day before `e` in the calendar.
pub IsDayBefore : UtcDate → UtcDate → Type 0
IsDayBefore d e =
    (d.year < e.year)
    ⊎ ((d.year ≡ e.year) × ((d.month < e.month) ⊎ ((d.month ≡ e.month) × (d.day < e.day))))

-- Shown as stored or as overdue, as `Q` says.
pub IsShown : {S : Type 0} → S → Type 0 → DisplayStatus S → Type 0
IsShown s Q (stored t) = (t ≡ s) × (Q → ⊥)
IsShown s Q atrasado = Q

days_in_month_le : (y m : ℕ) → days_in_month y m ≤ 31
unfolding days_in_month
days_in_month_le y m = ground arith

-- The days of two dates in order, 31 to a month.
abbrev day_number : UtcDate → ℕ
day_number d = month_index d * 31 + d.day

time-day_number :
    (d e : UtcDate)
    → d.ms_of_day < 86400000
    → (ltb (time d) (time (start_of_day e)) ≡ true) ↔ (day_number d < day_number e)
time-day_number d e h = ((λ x. ground arith), (λ x. ground arith))

day_number-IsDayBefore :
    (d e : UtcDate)
    → d.month < 12
    → e.month < 12
    → d.day ≤ 31
    → e.day ≤ 31
    → 1 ≤ d.day
    → 1 ≤ e.day
    → day_number d < day_number e
    → IsDayBefore d e
unfolding IsDayBefore
day_number-IsDayBefore d e dm em dd ed dp ep h = elim (Bool-cases (ltb d.year e.year)) [
  | inl y ↦ inl (ground arith)
  | inr y ↦ inr (
    (ground arith),
    (elim (Bool-cases (ltb d.month e.month)) [
      | inl m ↦ inl (ground arith)
      | inr m ↦ inr ((ground arith), (ground arith))
    ]),
  )
]

IsDayBefore-day_number :
    (d e : UtcDate)
    → d.month < 12
    → d.day ≤ 31
    → 1 ≤ e.day
    → IsDayBefore d e
    → day_number d < day_number e
unfolding IsDayBefore
IsDayBefore-day_number d e dm dd ep (inl y) = omega arith
IsDayBefore-day_number d e dm dd ep (inr (y, inl m)) = omega arith
IsDayBefore-day_number d e dm dd ep (inr (y, inr (m, day))) = omega arith

is_past_lem : (d e : UtcDate) → IsDate d → IsDate e → (is_past d e ≡ true) ↔ IsDayBefore d e
unfolding is_past
is_past_lem d e p q = (
  (λ x.
      day_number-IsDayBefore d e p.month_lt q.month_lt (d_le d p) (d_le e q) p.day_pos q.day_pos
        ((time-day_number d e p.ms_lt).0 x)),
  (λ x.
      (time-day_number d e p.ms_lt).1
        (IsDayBefore-day_number d e p.month_lt (d_le d p) q.day_pos x)),
)
  where
    d_le : (c : UtcDate) → IsDate c → c.day ≤ 31
    d_le c r = omega (arith, days_in_month_le c.year c.month, r.day_le)

shown_lem :
    {S P : Type 0} (s : S) (awaits past : Bool)
    → (past ≡ true) ↔ P
    → IsShown s ((awaits ≡ true) × P) (if awaits && past then atrasado else stored s)
unfolding IsShown
shown_lem s false past h = (refl, (λ x. cc x.0))
shown_lem s true false h = (refl, (λ x. cc (h.1 x.1)))
shown_lem s true true h = (refl, h.0 refl)

-- For dates of the calendar, a receivable and a payable are shown as overdue where they await money
-- and were due on a day before the day of the reference date, and with their own status otherwise.
pub get_computed_status_lem :
    (status : ReceivableStatus) (owed : PayableStatus) (due_date now : UtcDate)
    → IsDate due_date
    → IsDate now
    → IsShown status
        ((awaits_receipt status ≡ true) × IsDayBefore due_date now)
        (get_computed_receivable_status status due_date now)
      × IsShown owed
          ((awaits_payment owed ≡ true) × IsDayBefore due_date now)
          (get_computed_payable_status owed due_date now)
get_computed_status_lem status owed due_date now p q =
    let past = is_past_lem due_date now p q in
    (
      shown_lem status (awaits_receipt status) (is_past due_date now) past,
      shown_lem owed (awaits_payment owed) (is_past due_date now) past,
    )
