-- ===== src/Receivables/Generation.antt =====
-- `generateForSale` of src/receivables/receivables.service.ts: the receivables of a payment plan.
use harpia_api.Prelude.{
  ℕ, zero, suc, ◌+◌, ◌*◌, ◌/◌, ◌%◌, Bool, true, false, ◌&&◌, ◌||◌, Option, none, some, List, [],
  ◌∷◌, ◌++◌, map, Text, ◌==◌, or_else, if◌then◌else◌, elem,
}
use harpia_api.Dates.{UtcDate, add_utc_months}
use harpia_api.Table.{find_many}
use harpia_api.Table.Keys.{next_id}
use harpia_api.Store.{
  PaymentConditionType, ReceivableStatus, ReceivableRow, AuditAction, AuditEntry, EntityType,
  Action, pure, gets, modify_db, record_many, is_parcelas, ◌>>=◌, ◌>>◌,
}
use harpia_api.Opportunities.Stage.{trim}
use harpia_api.Receivables.Split.{split_amount}

-- ReceivableSaleSource
pub record ReceivableSaleSource : Type 0 where
  pub id : ℕ
  pub organization_id : ℕ
  pub company_id : Option ℕ
  pub sale_date : UtcDate
  pub expected_delivery_date : Option UtcDate

-- ReceivablePlanSource
pub record ReceivablePlanSource : Type 0 where
  pub id : ℕ
  pub type : PaymentConditionType
  pub amount : ℕ
  pub installments : Option ℕ
  pub first_due_date : Option UtcDate
  pub interval_months : Option ℕ
  pub description : Option Text

-- `firstDueDate`
abbrev pub delivery_or_sale_date : PaymentConditionType → Option UtcDate → UtcDate → UtcDate
delivery_or_sale_date PaymentConditionType.saldo_chaves (some d) sale_date = d
delivery_or_sale_date _ _ sale_date = sale_date

abbrev pub first_due_date : ReceivableSaleSource → ReceivablePlanSource → UtcDate
first_due_date sale plan = elim plan.first_due_date [
  | none ↦ delivery_or_sale_date plan.type sale.expected_delivery_date sale.sale_date
  | some d ↦ d
]

-- A number in decimal, its digits in front of `rest`.
unfoldable pub digits_from : ℕ → ℕ → Text → Text
digits_from zero n rest = rest
digits_from (suc fuel) n rest =
    let text = (48 + n % 10) ∷ rest in if n / 10 == 0 then text else digits_from fuel (n / 10) text

unfoldable pub decimal : ℕ → Text
unfolding digits_from
decimal n = digits_from (suc n) n []

-- `padStart(2, '0')`
abbrev pub pad : Text → Text
pad [] = 48 ∷ 48 ∷ []
pad (c ∷ []) = 48 ∷ c ∷ []
pad (c ∷ d ∷ s) = c ∷ d ∷ s

-- "Entrada"
abbrev entrada_text : Text
entrada_text = 69 ∷ 110 ∷ 116 ∷ 114 ∷ 97 ∷ 100 ∷ 97 ∷ []

-- "Parcela "
abbrev parcela_text : Text
parcela_text = 80 ∷ 97 ∷ 114 ∷ 99 ∷ 101 ∷ 108 ∷ 97 ∷ 32 ∷ []

-- "/"
abbrev slash : Text
slash = 47 ∷ []

-- "Saldo nas chaves"
abbrev saldo_text : Text
saldo_text =
    83 ∷ 97 ∷ 108 ∷ 100 ∷ 111 ∷ 32 ∷ 110 ∷ 97 ∷ 115 ∷ 32 ∷ 99 ∷ 104 ∷ 97 ∷ 118 ∷ 101 ∷ 115 ∷ []

-- "Financiamento"
abbrev financiamento_text : Text
financiamento_text = 70 ∷ 105 ∷ 110 ∷ 97 ∷ 110 ∷ 99 ∷ 105 ∷ 97 ∷ 109 ∷ 101 ∷ 110 ∷ 116 ∷ 111 ∷ []

-- "Outro recebível"
abbrev outro_text : Text
outro_text =
    79 ∷ 117 ∷ 116 ∷ 114 ∷ 111 ∷ 32 ∷ 114 ∷ 101 ∷ 99 ∷ 101 ∷ 98 ∷ 237 ∷ 118 ∷ 101 ∷ 108 ∷ []

-- `description` for a plan whose own description is blank
abbrev pub default_description : PaymentConditionType → ℕ → ℕ → Text
default_description PaymentConditionType.entrada sequence count = entrada_text
default_description PaymentConditionType.parcelas sequence count =
    parcela_text ++ pad (decimal sequence) ++ slash ++ decimal count
default_description PaymentConditionType.saldo_chaves sequence count = saldo_text
default_description PaymentConditionType.financiamento sequence count = financiamento_text
default_description PaymentConditionType.outro sequence count = outro_text

abbrev pub text_or : Text → Text → Text
text_or [] other = other
text_or (c ∷ s) other = c ∷ s

unfoldable pub description : ReceivablePlanSource → ℕ → ℕ → Text
unfolding trim
description plan sequence count =
    text_or (trim (or_else plan.description [])) (default_description plan.type sequence count)

abbrev pub count_of : ReceivablePlanSource → ℕ
count_of plan = if is_parcelas plan.type then or_else plan.installments 1 else 1

-- `existingKeys.has(…)`, among the receivables of the plans
abbrev pub has_key : List ReceivableRow → ℕ → ℕ → Bool
has_key [] source_id sequence = false
has_key (r ∷ rs) source_id sequence =
    (r.source_id == source_id && r.source_sequence == sequence) || has_key rs source_id sequence

abbrev pub new_receivable :
    ReceivableSaleSource → ReceivablePlanSource → ℕ → UtcDate → ℕ → ℕ → ℕ → ReceivableRow
new_receivable sale plan count due index amount id = record {
  id = id;
  organization_id = sale.organization_id;
  company_id = sale.company_id;
  bank_account_id = none;
  sale_id = some sale.id;
  source_id = plan.id;
  source_sequence = index + 1;
  description = description plan (index + 1) count;
  due_date = add_utc_months due (index * or_else plan.interval_months 1);
  original_amount = amount;
  adjusted_amount = amount;
  paid_amount = 0;
  status = ReceivableStatus.pendente;
  paid_at = none;
  cancelled_at = none;
}

-- `tx.receivable.create`, which returns the new row's identifier.
unfoldable pub insert_receivable : (ℕ → ReceivableRow) → Action ℕ
insert_receivable row = do
  id ← gets (λ db. next_id (λ (r : ReceivableRow). r.id) db.receivables)
  modify_db (λ db. record db { receivables = db.receivables ++ row id ∷ [] })
  pure id

-- One round of the loop, where `rest` is the rest of it: an instalment that is there is passed over.
unfoldable pub create_unless : Bool → Action ℕ → Action (List ℕ) → Action (List ℕ)
create_unless true insert rest = rest
create_unless false insert rest = do id ← insert; ids ← rest; pure (id ∷ ids)

-- The loop over the instalments of a plan, from `index` on; returns what it creates.
unfoldable pub create_instalments :
    List ReceivableRow
    → ReceivableSaleSource
    → ReceivablePlanSource
    → ℕ
    → UtcDate
    → ℕ
    → List ℕ
    → Action (List ℕ)
unfolding insert_receivable description create_unless
create_instalments existing sale plan count due index [] = pure []
create_instalments existing sale plan count due index (amount ∷ amounts) =
    create_unless (has_key existing plan.id (index + 1))
      (insert_receivable (new_receivable sale plan count due index amount))
      (create_instalments existing sale plan count due (index + 1) amounts)

-- The loop over the plans.
unfoldable pub create_plans :
    List ReceivableRow → ReceivableSaleSource → List ReceivablePlanSource → Action (List ℕ)
unfolding split_amount create_instalments
create_plans existing sale [] = pure []
create_plans existing sale (plan ∷ plans) = do
  amounts ← split_amount plan.amount (count_of plan)
  ids ← create_instalments existing sale plan (count_of plan) (first_due_date sale plan) 0 amounts
  rest ← create_plans existing sale plans
  pure (ids ++ rest)

abbrev pub created_entries : ReceivableSaleSource → ℕ → List ℕ → List AuditEntry
created_entries sale actor_user_id ids =
    map
      (λ id. record {
        organization_id = sale.organization_id;
        actor_user_id = some actor_user_id;
        action = AuditAction.receivable_created;
        entity_type = EntityType.receivable;
        entity_id = some id;
      })
      ids

-- Nothing is recorded where nothing is created.
unfoldable pub record_created : ReceivableSaleSource → ℕ → List ℕ → Action (Unit {0})
record_created sale actor_user_id [] = pure tt
record_created sale actor_user_id (id ∷ ids) =
    record_many (created_entries sale actor_user_id (id ∷ ids))

-- `generateForSale`
unfoldable pub generate_for_sale :
    ReceivableSaleSource → List ReceivablePlanSource → ℕ → Action (List ℕ)
unfolding create_plans record_created
generate_for_sale sale plans actor_user_id = do
  existing ← gets (λ db.
      find_many
        (λ r.
          r.organization_id == sale.organization_id
          && elem r.source_id (map (λ (p : ReceivablePlanSource). p.id) plans))
        db.receivables)
  ids ← create_plans existing sale plans
  record_created sale actor_user_id ids
  pure ids
