-- ===== src/Tests/Finance.antt =====
-- Payables, bank statements and monetary adjustment.
use harpia_api.Cash.Tables.{cash_of}
use harpia_api.Reconciliation.Matching.{match_entry}
use harpia_api.Prelude.{
  ℕ, ◌+◌, ◌*◌, ◌≡◌, refl, none, some, List, ◌∷◌, [], arith, true, length, Text, Option, All, ◌/◌,
  ◌-◌, inl, inr,
}
use harpia_api.Prelude.Int.{pos, negsuc}
use harpia_api.Table.{find_first}
use harpia_api.Store.{
  BankReconciliationStatus, StatementEntryType, StatementEntryRow, PayableStatus, PayableRow,
  ReceivableAdjustmentRow, Database, Succeeds, run, state_of, ReceivableStatus,
  FinancialCategoryRow, Fails, thrown, Error,
}
use harpia_api.Ledger.{HasStatus}
use harpia_api.Receivables.Ledger.{IsReconciled, debt_status}
use harpia_api.Receivables.Payments.{RecordPaymentDto, reverse_payment, receivable_key}
use harpia_api.Payables.Setup.{
  default_categories, category_key, with_defaults, expense_category, comissao_text,
}
use harpia_api.Payables.Defaults.{ensure_organization_finds}
use harpia_api.Payables.Changes.{UpdatePayableDto, update_payable, write_update}
use harpia_api.Payables.Updates.{update_payable_closed, write_update_stale}
use harpia_api.Payables.Payments.{pay_payable, reverse_payable_payment}
use harpia_api.Payables.Effects.{IsPaidOff, pay_payable_off}
use harpia_api.Reconciliation.Import.{Texts, ImportEntryDto, ImportStatementDto, import_statement}
use harpia_api.Reconciliation.Candidates.{candidates}
use harpia_api.Reconciliation.Offers.{AllMatch, candidates_match}
use harpia_api.Reconciliation.Statements.{import_again}
use harpia_api.Adjustments.Apply.{Decimals, apply_adjustment}
use harpia_api.Adjustments.Account.{apply_adjustment-IsReconciled}
use harpia_api.Cash.Books.{IsBooked}
use harpia_api.Cash.Balance.{HasMoved}
use harpia_api.Cash.Refinement.{serve_refines}
use harpia_api.Cash.Requests.{serve, CashRequest, serve_all, books_agree}
use harpia_api.Tests.Samples.{actor, account_row, receivable_row, sample, transaction_row}
use harpia_api.Tests.Valid.{sample-IsReconciled}

abbrev payable_row : ℕ → ℕ → PayableStatus → PayableRow
payable_row id paid status = record {
  id = id;
  organization_id = 1;
  company_id = none;
  development_id = none;
  bank_account_id = none;
  category_id = none;
  cost_center_id = none;
  supplier_person_id = none;
  sale_commission_id = none;
  investor_return_id = none;
  source_type = none;
  description = [];
  due_date = 20;
  original_amount = 500;
  paid_amount = paid;
  status = status;
  paid_at = none;
  cancelled_at = none;
}

abbrev statement_row : StatementEntryRow
statement_row = record {
  id = 95;
  organization_id = 1;
  bank_account_id = 90;
  external_id = none;
  fingerprint = 1 ∷ [];
  date = [];
  description = [];
  type = StatementEntryType.credito;
  amount = 400;
  status = BankReconciliationStatus.pendente;
  matched_transaction_id = none;
  reconciled_at = none;
  ignored_at = none;
}

abbrev books : Database
books = record sample {
  payables = payable_row 75 0 PayableStatus.pendente ∷ [];
  statement_entries = statement_row ∷ [];
}

books-IsBooked : IsBooked books
books-IsBooked = record {
  receivables = sample-IsReconciled;
  payables = record {
    ids = λ k. ground arith;
    payment_ids = λ k. ground arith;
    settled = (record { paid = refl; within = omega arith; status = refl }, tt);
    positive = (omega arith, tt);
    linked = λ k none_left. ground arith;
  };
  single = (refl, tt);
  journal = record {
    transaction_ids = λ k. ground arith;
    postings = λ k. ground arith;
    posted = λ k none_left. ground arith;
    entry_ids = λ k. ground arith;
    matched = (refl, tt);
    once = λ k. ground arith;
  };
}

abbrev spent : RecordPaymentDto
spent = record { amount = 500; paid_at = 50; bank_account_id = 90; notes = none }

abbrev paying : CashRequest
paying = CashRequest.paying 100 75 81 86 actor spent

-- The payable is paid, the entry is matched with the receipt and freed by its reversal.
abbrev requests : List CashRequest
requests =
    paying
    ∷ CashRequest.matching 101 95 85 actor
    ∷ CashRequest.returning 102 70 80 actor []
    ∷ CashRequest.reversing 103 75 81 actor []
    ∷ []

books_agree_example : IsBooked (serve_all requests books)
books_agree_example =
    books_agree requests books ((omega arith, refl, refl), (tt, (tt, (tt, tt)))) books-IsBooked

serve_refines_example : HasMoved books.payables (serve paying books).payables
serve_refines_example = serve_refines paying books (omega arith, refl, refl) books-IsBooked

freed_test : (serve_all requests books).statement_entries ≡ statement_row ∷ []
unfolding run reverse_payable_payment reverse_payment match_entry pay_payable
freed_test = refl

pay_payable_off_example :
    Succeeds
      (λ x d. IsPaidOff 75 actor spent (payable_row 75 0 PayableStatus.pendente) x d)
      (pay_payable 100 75 81 86 actor spent books)
pay_payable_off_example =
    pay_payable_off 75 81 86 actor spent books (payable_row 75 0 PayableStatus.pendente) account_row
      refl refl refl (omega arith) refl refl refl tt tt 100 (omega arith)

ensure_organization_finds_example :
    All
      (λ e.
        (c : FinancialCategoryRow) × (find_first
            (category_key 1 e.0 e.1)
            (with_defaults 1 sample).financial_categories
          ≡ some c))
      default_categories
    × Succeeds (λ c d. d ≡ with_defaults 1 sample) (expense_category 1 comissao_text sample)
ensure_organization_finds_example = ensure_organization_finds 1 sample

-- A change of the description only
abbrev change : UpdatePayableDto
change = record {
  description = some (79 ∷ []);
  due_date = none;
  original_amount = none;
  company_id = none;
  development_id = none;
  bank_account_id = none;
  category_id = none;
  cost_center_id = none;
  supplier_person_id = none;
}

abbrev cancelled_row : PayableRow
cancelled_row = record (payable_row 76 0 PayableStatus.cancelado) { cancelled_at = some 30 }

abbrev with_cancelled : Database
with_cancelled = record sample { payables = cancelled_row ∷ [] }

update_payable_closed_example :
    Fails (λ d. cash_of d ≡ cash_of with_cancelled) (update_payable 76 actor change with_cancelled)
update_payable_closed_example =
    update_payable_closed 76 actor change with_cancelled cancelled_row refl (inr (refl, refl))

abbrev with_paid : Database
with_paid = record sample { payables = payable_row 75 200 PayableStatus.parcial ∷ [] }

write_update_stale_example :
    write_update 75 actor (payable_row 75 0 PayableStatus.pendente) change with_paid
    ≡ thrown Error.check_violation with_paid
write_update_stale_example =
    write_update_stale 75 actor change (payable_row 75 0 PayableStatus.pendente)
      (payable_row 75 200 PayableStatus.parcial) with_paid refl refl (omega arith)
      (inl (omega arith))

abbrev texts : Texts
texts = record {
  digest = λ t. t;
  trim = λ t. t;
  to_lower = λ t. t;
  fixed = λ n. n ∷ [];
  shown = λ n. n ∷ [];
}

abbrev line : Option Text → ℕ → ImportEntryDto
line external amount = record {
  external_id = external;
  date = 9 ∷ [];
  description = 8 ∷ [];
  type = StatementEntryType.debito;
  amount = amount;
}

-- The third line repeats the first.
abbrev statement : ImportStatementDto
statement = record {
  bank_account_id = 90;
  entries = line none 100 ∷ line (some (7 ∷ [])) 100 ∷ line (some []) 100 ∷ [];
}

import_again_example :
    Succeeds
      (λ r d.
        (r.imported + r.skipped ≡ 3)
        × (length d.statement_entries ≡ 0 + r.imported)
        × Succeeds
            (λ r' d'. (r'.imported ≡ 0) × (d'.statement_entries ≡ d.statement_entries))
            (import_statement texts actor statement d))
      (import_statement texts actor statement sample)
import_again_example =
    import_again texts actor statement (omega arith, (omega arith, (omega arith, tt))) sample
      account_row refl

import_test :
    length (state_of (import_statement texts actor statement sample)).statement_entries ≡ 2
unfolding run import_statement
import_test = refl

-- Factors in units of 10^-4, each rounded down
abbrev decimals : Decimals
decimals = record {
  Decimal = ℕ;
  one = 10000;
  one_plus = λ n. elim n [ pos p ↦ 10000 + p | negsuc p ↦ 9999 - p ];
  times = λ a b. a * b / 10000;
  scaled = λ amount factor. amount * factor / 10000;
}

abbrev indexed : Database
indexed = record sample {
  index_values =
      record { organization_id = 1; monetary_index_id = 3; competence = 5; percentage = pos 500 }
      ∷ [];
  adjustment_policies =
      record {
        organization_id = 1;
        receivable_id = 70;
        monetary_index_id = 3;
        base_date = 0;
        active = true;
      }
      ∷ [];
}

abbrev settled : Database
settled = record indexed {
  receivables =
      record receivable_row {
        paid_amount = 1000;
        status = ReceivableStatus.pago;
        paid_at = some 10;
      }
      ∷ [];
}

abbrev adjustment : ReceivableAdjustmentRow
adjustment = record {
  id = 200;
  organization_id = 1;
  receivable_id = 70;
  previous_amount = 1000;
  adjusted_amount = 1050;
  difference = pos 50;
  start_competence = 0;
  end_competence = 10;
  applied_at = 100;
  applied_by_id = 1;
}

apply_adjustment-IsReconciled_example :
    IsReconciled (state_of (apply_adjustment decimals 100 200 70 actor 0 10 indexed))
    × (find_first
          (receivable_key 70 1)
          (state_of (apply_adjustment decimals 100 200 70 actor 0 10 indexed)).receivables
        ≡ some (record receivable_row { adjusted_amount = 1050 }))
    × ◌≡◌ {A = ℕ} 1000 1000
    × HasStatus (debt_status ReceivableStatus.parcial) 400 1050
unfolding run apply_adjustment
apply_adjustment-IsReconciled_example =
    apply_adjustment-IsReconciled decimals 100 200 70 0 10 actor indexed
      (state_of (apply_adjustment decimals 100 200 70 actor 0 10 indexed)) adjustment receivable_row
      refl refl sample-IsReconciled

-- A paid receivable cannot be adjusted: the constraint on its status refuses it.
adjust_paid_test :
    apply_adjustment decimals 100 200 70 actor 0 10 settled ≡ thrown Error.check_violation settled
unfolding run apply_adjustment
adjust_paid_test = refl

candidates_match_example :
    AllMatch 101 95 actor books (record { transaction = transaction_row; score = 100 } ∷ [])
unfolding run candidates
candidates_match_example =
    candidates_match (λ t. 20) 101 95 actor books books
      (record { transaction = transaction_row; score = 100 } ∷ []) (λ k. ground arith) refl
