-- ===== src/Tests/Samples.antt =====
-- A database with three units, one of them reserved and one sold, an open proposal for the third,
-- and one receivable.
use harpia_api.Prelude.{List, ℕ, false, true, none, some, [], ◌∷◌}
use harpia_api.Dates.{UtcDate}
use harpia_api.Prelude.Int.{pos}
use harpia_api.Proposals.Pricing.{ConditionDto}
use harpia_api.Store.{
  BankAccountRow, PaymentConditionType, ProposalRow, ProposalVersionRow, UnitPriceRow,
  SalesProposalStatus, UnitStatus, UnitReservationStatus, SaleStatus, ReceivableStatus, UnitRow,
  ReservationRow, OpportunityRow, SaleRow, ReceivableRow, PaymentRow, TransactionRow,
  TransactionType, Database, Actor,
}

abbrev pub actor : Actor
actor = record { id = 1; organization_id = 1 }

abbrev pub unit_row : ℕ → UnitStatus → UnitRow
unit_row id status = record { id = id; organization_id = 1; development_id = 1; status = status }

abbrev pub reservation_row : ReservationRow
reservation_row = record {
  id = 20;
  organization_id = 1;
  unit_id = 2;
  person_id = 5;
  opportunity_id = none;
  created_by_user_id = 1;
  status = UnitReservationStatus.ativa;
  expires_at = 500;
  notes = none;
  cancelled_at = none;
  cancelled_by_user_id = none;
  cancellation_reason = none;
  converted_at = none;
  converted_by_user_id = none;
}

abbrev pub opportunity_row : OpportunityRow
opportunity_row = record {
  id = 30;
  organization_id = 1;
  person_id = 5;
  pipeline_id = 1;
  stage_id = 40;
  development_id = none;
  assigned_user_id = none;
  unit_id = none;
  lost_reason = none;
  stage_entered_at = 0;
}

abbrev pub a_day : UtcDate
a_day = record { year = 2026; month = 8; day = 15; ms_of_day = 0 }

abbrev pub sale_row : SaleRow
sale_row = record {
  id = 60;
  organization_id = 1;
  development_id = 1;
  unit_id = 3;
  opportunity_id = none;
  proposal_id = none;
  sale_number = 86 ∷ 49 ∷ [];
  status = SaleStatus.ativa;
  sale_date = a_day;
  gross_amount = 1000;
  discount_amount = 0;
  net_amount = 1000;
  notes = none;
  created_by_user_id = 1;
  cancelled_at = none;
  buyers = [];
  payment_plan = [];
  commissions = [];
}

abbrev pub receivable_row : ReceivableRow
receivable_row = record {
  id = 70;
  organization_id = 1;
  company_id = none;
  bank_account_id = none;
  sale_id = some 60;
  source_id = 9;
  source_sequence = 1;
  description = [];
  due_date = a_day;
  original_amount = 1000;
  adjusted_amount = 1000;
  paid_amount = 400;
  status = ReceivableStatus.parcial;
  paid_at = none;
  cancelled_at = none;
}

abbrev pub payment_row : PaymentRow
payment_row = record {
  id = 80;
  organization_id = 1;
  receivable_id = some 70;
  payable_id = none;
  bank_account_id = 90;
  amount = 400;
  paid_at = 10;
  notes = none;
  created_by_user_id = 1;
  reversed_at = none;
  reversed_by_user_id = none;
  reversal_reason = none;
}

abbrev pub transaction_row : TransactionRow
transaction_row = record {
  id = 85;
  organization_id = 1;
  payment_id = 80;
  receivable_id = some 70;
  payable_id = none;
  bank_account_id = 90;
  company_id = none;
  development_id = some 1;
  cost_center_id = none;
  type = TransactionType.entrada;
  amount = 400;
  date = 10;
  description = [];
  reversed_at = none;
}

-- A proposal for the available unit that waits for an answer.
abbrev pub proposal_row : ProposalRow
proposal_row = record {
  id = 50;
  organization_id = 1;
  opportunity_id = none;
  reservation_id = none;
  person_id = 5;
  unit_id = 1;
  status = SalesProposalStatus.enviada;
  current_version_id = some 51;
  valid_until = some 400;
  created_by_user_id = 1;
  sent_at = some 5;
  sent_by_user_id = some 1;
  accepted_at = none;
  accepted_by_user_id = none;
  rejected_at = none;
  rejected_by_user_id = none;
  rejection_reason = none;
  converted_to_sale_at = none;
  converted_to_sale_by_user_id = none;
}

abbrev pub version_row : ProposalVersionRow
version_row = record {
  id = 51;
  organization_id = 1;
  proposal_id = 50;
  version = 1;
  base_price = 1000;
  discount = 100;
  final_price = 900;
  down_payment = 300;
  valid_until = some 400;
  source_price_table_id = 7;
  created_by_user_id = 1;
  conditions =
      record {
        type = PaymentConditionType.entrada;
        amount = 300;
        installments = none;
        first_due_date = none;
        interval_months = none;
        description = none;
        position = 0;
      }
      ∷ record {
        type = PaymentConditionType.parcelas;
        amount = 600;
        installments = some 7;
        first_due_date = some a_day;
        interval_months = some 1;
        description = none;
        position = 1;
      }
      ∷ [];
}

abbrev pub price_row : UnitPriceRow
price_row = record {
  organization_id = 1;
  unit_id = 1;
  value = pos 1000;
  price_table_id = 7;
  price_table_active = true;
}

abbrev pub account_row : BankAccountRow
account_row = record { id = 90; organization_id = 1; company_id = none }

abbrev pub sample : Database
sample = record {
  units =
      unit_row 1 UnitStatus.disponivel
      ∷ unit_row 2 UnitStatus.reservada
      ∷ unit_row 3 UnitStatus.vendida
      ∷ [];
  people = record { id = 5; organization_id = 1 } ∷ [];
  person_roles = [];
  users = record { id = 1; organization_id = 1; is_active = true } ∷ [];
  developments =
      record { id = 1; organization_id = 1; company_id = some 3; expected_delivery_date = none }
      ∷ [];
  reservations = reservation_row ∷ [];
  stages =
      record {
        id = 40;
        organization_id = 1;
        pipeline_id = 1;
        position = 0;
        is_won = false;
        is_lost = false;
      }
      ∷ record {
        id = 41;
        organization_id = 1;
        pipeline_id = 1;
        position = 1;
        is_won = false;
        is_lost = true;
      }
      ∷ [];
  opportunities = opportunity_row ∷ [];
  stage_history = [];
  proposals = proposal_row ∷ [];
  proposal_versions = version_row ∷ [];
  sales_visits = [];
  unit_prices = price_row ∷ [];
  sales = sale_row ∷ [];
  sale_cancellations = [];
  receivables = receivable_row ∷ [];
  payables = [];
  collection_dispatches = [];
  payments = payment_row ∷ [];
  transactions = transaction_row ∷ [];
  statement_entries = [];
  bank_accounts = account_row ∷ [];
  cost_centers = [];
  companies = [];
  financial_categories = [];
  returns = [];
  index_values = [];
  adjustment_policies = [];
  adjustments = [];
  audit_logs = [];
}

-- An entrance of 300 and instalments of 600 for a price of 1000 less 100.
abbrev pub conditions : List ConditionDto
conditions =
    record {
      type = PaymentConditionType.entrada;
      amount = pos 300;
      installments = none;
      first_due_date = none;
      interval_months = none;
      description = none;
    }
    ∷ record {
      type = PaymentConditionType.parcelas;
      amount = pos 600;
      installments = none;
      first_due_date = none;
      interval_months = none;
      description = none;
    }
    ∷ []
