-- ===== src/Tests/Display.antt =====
-- Statuses shown for due dates, as in src/receivables/receivable-status.ts and
-- src/finance/payable-status.ts.
use harpia_api.Prelude.{◌≡◌, refl, arith, true}
use harpia_api.Dates.{UtcDate, IsDate, days_in_month}
use harpia_api.Store.{ReceivableStatus, PayableStatus}
use harpia_api.Receivables.Display.{
  DisplayStatus, awaits_receipt, awaits_payment, is_past, get_computed_receivable_status,
  get_computed_payable_status, IsDayBefore, IsShown, get_computed_status_lem,
}

-- 10 August 2026
abbrev due_date : UtcDate
due_date = record { year = 2026; month = 7; day = 10; ms_of_day = 0 }

-- 23:00 on that day
abbrev evening : UtcDate
evening = record { year = 2026; month = 7; day = 10; ms_of_day = 82800000 }

-- One millisecond past midnight on 1 September
abbrev later : UtcDate
later = record { year = 2026; month = 8; day = 1; ms_of_day = 1 }

evening_test :
    get_computed_receivable_status ReceivableStatus.pendente due_date evening
    ≡ DisplayStatus.stored ReceivableStatus.pendente
unfolding is_past
evening_test = refl

later_test :
    get_computed_receivable_status ReceivableStatus.parcial due_date later ≡ DisplayStatus.atrasado
unfolding is_past
later_test = refl

paid_test :
    get_computed_payable_status PayableStatus.pago due_date later
    ≡ DisplayStatus.stored PayableStatus.pago
unfolding is_past
paid_test = refl

due_date-IsDate : IsDate due_date
unfolding days_in_month
due_date-IsDate = record {
  month_lt = omega arith;
  day_pos = omega arith;
  day_le = omega arith;
  ms_lt = omega arith;
}

later-IsDate : IsDate later
unfolding days_in_month
later-IsDate = record {
  month_lt = omega arith;
  day_pos = omega arith;
  day_le = omega arith;
  ms_lt = omega arith;
}

get_computed_status_lem_example :
    IsShown ReceivableStatus.parcial
      ((awaits_receipt ReceivableStatus.parcial ≡ true) × IsDayBefore due_date later)
      (get_computed_receivable_status ReceivableStatus.parcial due_date later)
    × IsShown PayableStatus.pago
        ((awaits_payment PayableStatus.pago ≡ true) × IsDayBefore due_date later)
        (get_computed_payable_status PayableStatus.pago due_date later)
get_computed_status_lem_example =
    get_computed_status_lem ReceivableStatus.parcial PayableStatus.pago due_date later
      due_date-IsDate later-IsDate
