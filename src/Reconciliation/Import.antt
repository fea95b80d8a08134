-- ===== src/Reconciliation/Import.antt =====
-- `import` of src/finance/bank-reconciliation.service.ts.
use harpia_api.Prelude.{
  ℕ, suc, ◌-◌, Bool, ◌&&◌, Option, none, some, List, [], ◌∷◌, ◌++◌, Text, ◌==◌, is_some, eqb_text,
  map, length, if◌then◌else◌, all_by, ltb,
}
use harpia_api.Table.{find_first}
use harpia_api.Table.Keys.{next_id}
use harpia_api.Store.{
  BankReconciliationStatus, StatementEntryType, StatementEntryRow, AuditAction, EntityType, Actor,
  Action, transaction, gets, modify_db, record_one, pure, ◌>>=◌, ◌>>◌, check_rows,
}
use harpia_api.Receivables.Payments.{require_bank_account}
use harpia_api.Proposals.Pricing.{text_or_null}

-- What the runtime computes of texts: the hash of `createHash('sha256')`, `trim`,
-- `toLocaleLowerCase('pt-BR')`, `toFixed(2)` of an amount, and the text of an account's identifier.
pub record Texts : Type 0 where
  pub digest : Text → Text
  pub trim : Text → Text
  pub to_lower : Text → Text
  pub fixed : ℕ → Text
  pub shown : ℕ → Text

pub record ImportEntryDto : Type 0 where
  pub external_id : Option Text
  pub date : Text
  pub description : Text
  pub type : StatementEntryType
  pub amount : ℕ

pub record ImportStatementDto : Type 0 where
  pub bank_account_id : ℕ
  pub entries : List ImportEntryDto

-- "external:"
abbrev pub external_text : Text
external_text = 101 ∷ 120 ∷ 116 ∷ 101 ∷ 114 ∷ 110 ∷ 97 ∷ 108 ∷ 58 ∷ []

-- "|"
abbrev pub bar : Text
bar = 124 ∷ []

-- "CREDITO" and "DEBITO"
abbrev pub type_text : StatementEntryType → Text
type_text StatementEntryType.credito = 67 ∷ 82 ∷ 69 ∷ 68 ∷ 73 ∷ 84 ∷ 79 ∷ []
type_text StatementEntryType.debito = 68 ∷ 69 ∷ 66 ∷ 73 ∷ 84 ∷ 79 ∷ []

-- What one import made of the table.
pub record Imported : Type 0 where
  pub entries : List StatementEntryRow
  pub count : ℕ

pub record ImportResult : Type 0 where
  pub received : ℕ
  pub imported : ℕ
  pub skipped : ℕ

-- The unique key `organizationId, bankAccountId, fingerprint`.
abbrev pub statement_key : ℕ → ℕ → Text → StatementEntryRow → Bool
statement_key org account fingerprint e =
    e.organization_id == org && e.bank_account_id == account && eqb_text e.fingerprint fingerprint

-- `createMany` with `skipDuplicates`: a row whose key is there, of this import or an earlier one, is
-- left out. The constraint on amounts is tested before, on all rows.
abbrev pub insert_entry : StatementEntryRow → Imported → Imported
insert_entry e s =
    if is_some
      (find_first (statement_key e.organization_id e.bank_account_id e.fingerprint) s.entries)
    then s
    else record {
      entries = s.entries ++ (record e { id = next_id (λ x. x.id) s.entries }) ∷ [];
      count = suc s.count;
    }

unfoldable pub insert_entries : List StatementEntryRow → Imported → Imported
insert_entries [] s = s
insert_entries (e ∷ es) s = insert_entries es (insert_entry e s)

module _ (texts : Texts) where
  abbrev pub identity : ImportEntryDto → Text
  identity e = elim (text_or_null e.external_id) [
    | some x ↦ external_text ++ texts.trim x
    | none ↦
        e.date
        ++ bar
        ++ type_text e.type
        ++ bar
        ++ texts.fixed e.amount
        ++ bar
        ++ texts.to_lower (texts.trim e.description)
  ]

  -- `fingerprint`
  abbrev pub fingerprint : ℕ → ImportEntryDto → Text
  fingerprint account e = texts.digest (texts.shown account ++ bar ++ identity e)

  -- A row of `data`; the database gives it its identifier.
  abbrev pub new_entry : ℕ → ℕ → ImportEntryDto → StatementEntryRow
  new_entry org account e = record {
    id = 0;
    organization_id = org;
    bank_account_id = account;
    external_id = text_or_null e.external_id;
    fingerprint = fingerprint account e;
    date = e.date;
    description = e.description;
    type = e.type;
    amount = e.amount;
    status = BankReconciliationStatus.pendente;
    matched_transaction_id = none;
    reconciled_at = none;
    ignored_at = none;
  }

  -- The callback of `import`
  unfoldable pub import_rows : Actor → List StatementEntryRow → Action ℕ
  unfolding insert_entries
  import_rows actor rows = do
    check_rows (λ _. all_by (λ e. ltb 0 e.amount) rows)
    result ← gets (λ db. insert_entries rows (record { entries = db.statement_entries; count = 0 }))
    modify_db (λ db. record db { statement_entries = result.entries })
    record_one (record {
      organization_id = actor.organization_id;
      actor_user_id = some actor.id;
      action = AuditAction.bank_statement_imported;
      entity_type = EntityType.bank_statement_entry;
      entity_id = none;
    })
    pure result.count

  -- `import`
  unfoldable pub import_statement : Actor → ImportStatementDto → Action ImportResult
  unfolding import_rows require_bank_account
  import_statement actor dto = do
    account ← require_bank_account dto.bank_account_id actor.organization_id
    imported ←
        transaction
          (import_rows actor (map (new_entry actor.organization_id account.id) dto.entries))
    pure (record {
      received = length dto.entries;
      imported = imported;
      skipped = length dto.entries - imported;
    })
