-- ===== src/Tests/Money.antt =====
-- Prices, instalments and payments.
use harpia_api.Prelude.{ℕ, ◌≤◌, ◌<◌, ◌≡◌, ◌⊎◌, refl, none, some, List, [], ◌∷◌, arith, true, false}
use harpia_api.Prelude.Int.{pos}
use harpia_api.Store.{Error, ReceivableStatus, done, thrown, run, state_of}
use harpia_api.Proposals.Pricing.{Pricing, validate_pricing}
use harpia_api.Proposals.PricingLaws.{IsPriced, is_acceptable, validate_pricing_lem}
use harpia_api.Receivables.Split.{IsSplit, split_amount, split_amount_lem}
use harpia_api.Receivables.Payments.{RecordPaymentDto, record_payment, reverse_payment, cancel}
use harpia_api.Receivables.Ledger.{IsReconciled}
use harpia_api.Receivables.Requests.{
  record_payment-IsReconciled, reverse_payment-IsReconciled, cancel-IsReconciled,
}
use harpia_api.Dates.{days_in_month, add_utc_months}
use harpia_api.Dates.Months.{IsMonthsAfter, add_utc_months_lem}
use harpia_api.Tests.Valid.{sample-IsReconciled}
use harpia_api.Tests.Samples.{sample, actor, a_day, conditions}

validate_pricing_lem_example :
    ((is_acceptable (pos 1000) (pos 100) conditions ≡ true)
      × (p : Pricing) × (validate_pricing (pos 1000) (pos 100) conditions sample ≡ done p sample)
      × IsPriced (pos 1000) (pos 100) conditions p)
    ⊎ ((is_acceptable (pos 1000) (pos 100) conditions ≡ false)
        × (e : Error) × (validate_pricing (pos 1000) (pos 100) conditions sample ≡ thrown e sample))
validate_pricing_lem_example = validate_pricing_lem (pos 1000) (pos 100) conditions sample

-- The last instalment takes the remainder.
split_test : split_amount 1000 3 sample ≡ done (333 ∷ 333 ∷ 334 ∷ []) sample
unfolding split_amount run
split_test = refl

split_amount_lem_example :
    ((1 ≤ 3)
      × (3 ≤ 600)
      × (3 ≤ 1000)
      × (amounts : List ℕ) × (split_amount 1000 3 sample ≡ done amounts sample)
      × IsSplit 1000 3 amounts)
    ⊎ ((e : Error) × (split_amount 1000 3 sample ≡ thrown e sample)
        × (◌≡◌ {A = ℕ} 3 0 ⊎ ((600 < 3) ⊎ (1000 < 3))))
split_amount_lem_example = split_amount_lem 1000 3 sample

abbrev payment : RecordPaymentDto
payment = record { amount = 600; paid_at = 50; bank_account_id = 90; notes = none }

-- The rest of the amount pays the receivable.
paid_test :
    (state_of (record_payment 100 70 81 86 actor payment sample)).receivables
    ≡ record {
      id = 70;
      organization_id = 1;
      company_id = none;
      bank_account_id = some 90;
      sale_id = some 60;
      source_id = 9;
      source_sequence = 1;
      description = [];
      due_date = a_day;
      original_amount = 1000;
      adjusted_amount = 1000;
      paid_amount = 1000;
      status = ReceivableStatus.pago;
      paid_at = some 50;
      cancelled_at = none;
    }
      ∷ []
unfolding record_payment run
paid_test = refl

record_payment-IsReconciled_example :
    IsReconciled (state_of (record_payment 100 70 81 86 actor payment sample))
record_payment-IsReconciled_example =
    record_payment-IsReconciled 100 70 81 86 actor payment sample (omega arith) refl
      sample-IsReconciled

reverse_payment-IsReconciled_example :
    IsReconciled (state_of (reverse_payment 100 70 80 actor [] sample))
reverse_payment-IsReconciled_example =
    reverse_payment-IsReconciled 100 70 80 actor [] sample sample-IsReconciled

cancel-IsReconciled_example : IsReconciled (state_of (cancel 100 70 actor sample))
cancel-IsReconciled_example = cancel-IsReconciled 100 70 actor sample sample-IsReconciled

add_utc_months_lem_example : IsMonthsAfter a_day 6 (add_utc_months a_day 6)
unfolding days_in_month
add_utc_months_lem_example = add_utc_months_lem a_day 6 (record {
  month_lt = omega arith;
  day_pos = omega arith;
  day_le = omega arith;
  ms_lt = omega arith;
})
