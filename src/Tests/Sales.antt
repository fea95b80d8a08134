-- ===== src/Tests/Sales.antt =====
-- Sales on the sample database, once its proposal is accepted.
use harpia_api.Prelude.{
  true, ◌≡◌, ◌==◌, refl, none, some, List, [], ◌∷◌, map, sum_by, ◌+◌, length, arith,
}
use harpia_api.Store.{
  UnitStatus, UnitRow, ReceivableRow, Database, state_of, run, PaymentConditionType, Succeeds, done,
  SaleRow,
}
use harpia_api.Proposals.Acceptance.{accept}
use harpia_api.Receivables.Payments.{RecordPaymentDto}
use harpia_api.Receivables.Ledger.{IsReconciled}
use harpia_api.Sales.Registration.{ConvertProposalToSaleDto, SaleSetting}
use harpia_api.Sales.Shapes.{
  CreateSaleCommissionDto, validate_buyer_shape, validate_commission_shape,
}
use harpia_api.Sales.Conversion.{convert_proposal}
use harpia_api.Sales.Updates.{UpdateSaleDto}
use harpia_api.Sales.Cancellation.{cancel_sale}
use harpia_api.Table.{count_by}
use harpia_api.Proposals.Requests.{lock_optional_reservation}
use harpia_api.Sales.Repeats.{convert_proposal_again}
use harpia_api.Sales.Refusals.{cancel_sale_received}
use harpia_api.Receivables.Generation.{
  ReceivableSaleSource, ReceivablePlanSource, generate_for_sale, count_of, default_description,
}
use harpia_api.Receivables.Digits.{numbers_in, numbers_in-default_description}
use harpia_api.Receivables.Totals.{issued, generate_for_sale_lem}
use harpia_api.UnitHolds.{IsConsistent}
use harpia_api.UnitHolds.Proposals.Acceptance.{accept-IsConsistent}
use harpia_api.Tests.Valid.{sample-IsConsistent, sample-IsReconciled}
use harpia_api.UnitHolds.Sales.Conversion.{convert_proposal-IsReconciled}
use harpia_api.UnitHolds.Sales.Cancellation.{cancel_sale-IsReconciled}
use harpia_api.Tests.Samples.{
  sample, actor, a_day, receivable_row, sale_row, proposal_row, unit_row,
}

abbrev pub setting : SaleSetting
setting = record {
  today = a_day;
  sale_id = 61;
  first_plan_id = 10;
  first_commission_id = 3;
  generated_number = 86 ∷ 50 ∷ [];
}

abbrev pub sale_dto : ConvertProposalToSaleDto
sale_dto = record {
  sale_number = none;
  sale_date = none;
  notes = none;
  buyers = record { person_id = 5; participation_percentage = none; is_primary = true } ∷ [];
  commissions = [];
}

abbrev pub payment_dto : RecordPaymentDto
payment_dto = record { bank_account_id = 90; amount = 100; paid_at = 20; notes = none }

abbrev accepted_db : Database
accepted_db = state_of (accept 100 50 23 actor sample)

abbrev sold_db : Database
sold_db = state_of (convert_proposal 120 setting 50 actor sale_dto accepted_db)

-- The unit is sold, and the receivables of the price are there.
sold_test :
    map (λ (u : UnitRow). u.status) sold_db.units
    ≡ UnitStatus.vendida ∷ UnitStatus.reservada ∷ UnitStatus.vendida ∷ []
unfolding accept convert_proposal run
sold_test = refl

amounts_test :
    map (λ (r : ReceivableRow). r.original_amount) sold_db.receivables
    ≡ 1000 ∷ 300 ∷ 85 ∷ 85 ∷ 85 ∷ 85 ∷ 85 ∷ 85 ∷ 90 ∷ []
unfolding accept convert_proposal run
amounts_test = refl

accepted-IsReconciled : IsReconciled accepted_db
unfolding accept run
accepted-IsReconciled = sample-IsReconciled

accepted-IsConsistent : IsConsistent accepted_db
accepted-IsConsistent = accept-IsConsistent 100 50 23 actor sample sample-IsConsistent

accepted_sales_test : count_by (λ s. s.id == 61) accepted_db.sales ≡ 0
unfolding accept run
accepted_sales_test = refl

convert_proposal-IsReconciled_example :
    IsConsistent (state_of (convert_proposal 120 setting 50 actor sale_dto accepted_db))
    × IsReconciled (state_of (convert_proposal 120 setting 50 actor sale_dto accepted_db))
convert_proposal-IsReconciled_example =
    convert_proposal-IsReconciled 120 setting 50 actor sale_dto accepted_db accepted_sales_test
      accepted-IsConsistent accepted-IsReconciled

cancel_sale-IsReconciled_example :
    IsConsistent (state_of (cancel_sale 130 61 actor [] sold_db))
    × IsReconciled (state_of (cancel_sale 130 61 actor [] sold_db))
cancel_sale-IsReconciled_example =
    cancel_sale-IsReconciled 130 61 actor [] sold_db convert_proposal-IsReconciled_example.0
      convert_proposal-IsReconciled_example.1

-- A sale without receipts is undone.
undone_test :
    map (λ (u : UnitRow). u.status) (state_of (cancel_sale 130 61 actor [] sold_db)).units
    ≡ UnitStatus.distratada ∷ UnitStatus.reservada ∷ UnitStatus.vendida ∷ []
unfolding accept convert_proposal cancel_sale run
undone_test = refl

abbrev update_dto : UpdateSaleDto
update_dto = record { sale_number = some (86 ∷ 51 ∷ []); sale_date = none; notes = none }

abbrev commission_dto : CreateSaleCommissionDto
commission_dto = record {
  person_id = some 5;
  user_id = none;
  percentage = none;
  amount = 50;
  notes = none;
}

cancel_sale_received_example : state_of (cancel_sale 130 60 actor [] sample) ≡ sample
cancel_sale_received_example = cancel_sale_received 130 60 actor [] sample receivable_row refl

abbrev sale_source : ReceivableSaleSource
sale_source = record {
  id = 61;
  organization_id = 1;
  company_id = none;
  sale_date = a_day;
  expected_delivery_date = none;
}

abbrev plans : List ReceivablePlanSource
plans =
    record {
      id = 10;
      type = PaymentConditionType.parcelas;
      amount = 600;
      installments = some 7;
      first_due_date = none;
      interval_months = none;
      description = none;
    }
    ∷ []

generate_for_sale_lem_example :
    Succeeds
      (λ ids d.
        (issued d ≡ issued sample + sum_by (λ p. p.amount) plans)
        × (length ids ≡ sum_by count_of plans))
      (generate_for_sale sale_source plans 1 sample)
generate_for_sale_lem_example =
    generate_for_sale_lem sale_source plans 1 sample
      (record { some_part = omega arith; parts = omega arith; cents = omega arith }, tt) refl

abbrev sold_row : SaleRow
sold_row = record sale_row { proposal_id = some 50 }

abbrev repeated : Database
repeated = record sample { sales = sold_row ∷ [] }

shape_test : validate_buyer_shape sale_dto.buyers repeated ≡ done tt repeated
unfolding validate_buyer_shape run
shape_test = refl

commissions_test : validate_commission_shape sale_dto.commissions repeated ≡ done tt repeated
unfolding validate_commission_shape run
commissions_test = refl

reservation_test :
    lock_optional_reservation proposal_row.reservation_id 1 repeated ≡ done none repeated
unfolding lock_optional_reservation run
reservation_test = refl

convert_proposal_again_example :
    Succeeds
      (λ s d. (s ≡ sold_row) × (d ≡ repeated))
      (convert_proposal 120 setting 50 actor sale_dto repeated)
convert_proposal_again_example =
    convert_proposal_again 120 setting 50 actor sale_dto repeated proposal_row
      (unit_row 1 UnitStatus.disponivel) none sold_row shape_test commissions_test refl refl
      reservation_test refl refl

numbers_in-default_description_example :
    numbers_in (default_description PaymentConditionType.parcelas 7 120) ≡ (7, 120)
numbers_in-default_description_example = numbers_in-default_description 7 120
