-- ===== src/Reconciliation/Statements.antt =====
-- What `import` of src/finance/bank-reconciliation.service.ts does to the table of entries.
use harpia_api.Prelude.{
  ℕ, ◌-◌, ◌+◌, ◌≤◌, ◌≡◌, refl, Bool, true, ◌&&◌, some, List, [], ◌∷◌, ◌++◌, ◌==◌, is_some, map,
  length, length-append, arith, All, Bool-cases, inl, inr, ap, sym, ◌∙◌, eqb_text_refl, all_by, ltb,
}
use harpia_api.Table.{find_first}
use harpia_api.Table.Keys.{next_id}
use harpia_api.Store.{
  StatementEntryRow, BankAccountRow, Database, Actor, Succeeds, Succeeds-Ensures, Ensures-present,
  Ensures-commit, Ensures-bind, Ensures-get, Ensures-write, Ensures-record_one, Ensures-pure,
  Ensures-allowed,
}
use harpia_api.Receivables.Payments.{require_bank_account}
use harpia_api.Reconciliation.Import.{
  Texts, ImportStatementDto, Imported, statement_key, insert_entry, insert_entries, new_entry,
  import_rows, import_statement, ImportEntryDto,
}

-- The entry of a row of an import is there.
abbrev pub IsThere : List StatementEntryRow → StatementEntryRow → Type 0
IsThere es e =
    is_some (find_first (statement_key e.organization_id e.bank_account_id e.fingerprint) es) ≡ true

module _ (p : StatementEntryRow → Bool) where
  is_some-append :
      (rs ss : List StatementEntryRow)
      → is_some (find_first p rs) ≡ true
      → is_some (find_first p (rs ++ ss)) ≡ true
  is_some-append [] ss h = cc
  is_some-append (r ∷ rs) ss h = ground (arith, is_some-append rs ss)

  is_some-added :
      (rs : List StatementEntryRow) (r : StatementEntryRow)
      → p r ≡ true
      → is_some (find_first p (rs ++ r ∷ [])) ≡ true
  is_some-added [] r h = ground arith
  is_some-added (x ∷ rs) r h = ground (arith, is_some-added rs r)

-- Whether the key of a row is taken.
abbrev pub key_of : StatementEntryRow → StatementEntryRow → Bool
key_of e = statement_key e.organization_id e.bank_account_id e.fingerprint

IsThere-insert : (e : StatementEntryRow) (s : Imported) → IsThere (insert_entry e s).entries e
IsThere-insert e s = elim (Bool-cases (is_some (find_first (key_of e) s.entries))) [
  | inl h ↦ rw h h
  | inr h ↦
      rw h (is_some-added (key_of e) s.entries _ (ground (arith, eqb_text_refl e.fingerprint)))
]

IsThere-inserted :
    (e x : StatementEntryRow) (s : Imported)
    → IsThere s.entries x
    → IsThere (insert_entry e s).entries x
IsThere-inserted e x s there = elim (Bool-cases (is_some (find_first (key_of e) s.entries))) [
  | inl h ↦ rw h there
  | inr h ↦ rw h (is_some-append (key_of x) s.entries _ there)
]

inserts_lem :
    (es : List StatementEntryRow) (s : Imported)
    → All (IsThere s.entries) es
    → insert_entries es s ≡ s
unfolding insert_entries
inserts_lem [] s h = refl
inserts_lem (e ∷ es) s (there, h) = rw there (inserts_lem es s h)

IsThere-inserts :
    (es : List StatementEntryRow) (x : StatementEntryRow) (s : Imported)
    → IsThere s.entries x
    → IsThere (insert_entries es s).entries x
unfolding insert_entries
IsThere-inserts [] x s h = h
IsThere-inserts (e ∷ es) x s h = IsThere-inserts es x (insert_entry e s) (IsThere-inserted e x s h)

All-IsThere :
    (es : List StatementEntryRow) (s : Imported) → All (IsThere (insert_entries es s).entries) es
unfolding insert_entries
All-IsThere [] s = tt
All-IsThere (e ∷ es) s = (
  IsThere-inserts es e (insert_entry e s) (IsThere-insert e s),
  All-IsThere es (insert_entry e s),
)

-- What a row adds, or a number of rows.
abbrev pub Adds : ℕ → Imported → Imported → Type 0
Adds n s t =
    (s.count ≤ t.count)
    × (t.count ≤ s.count + n)
    × (length t.entries + s.count ≡ length s.entries + t.count)

insert_entry-Adds : (e : StatementEntryRow) (s : Imported) → Adds 1 s (insert_entry e s)
insert_entry-Adds e s = elim (Bool-cases (is_some (find_first (key_of e) s.entries))) [
  | inl h ↦ rw h (omega arith, omega arith, omega arith)
  | inr h ↦ rw h (
    omega arith,
    omega arith,
    omega (arith, length-append s.entries ((record e { id = next_id (λ x. x.id) s.entries }) ∷ [])),
  )
]

insert_entries-Adds :
    (es : List StatementEntryRow) (s : Imported) → Adds (length es) s (insert_entries es s)
unfolding insert_entries
insert_entries-Adds [] s = (omega arith, omega arith, omega arith)
insert_entries-Adds (e ∷ es) s =
    let (a, b, c) = insert_entry-Adds e s in
    let (a', b', c') = insert_entries-Adds es (insert_entry e s) in
    (omega arith, omega arith, omega arith)

length-map : {A B : Type 0} (f : A → B) (xs : List A) → length (map f xs) ≡ length xs
length-map f [] = refl
length-map f (x ∷ xs) = ground (arith, length-map f xs)

-- The constraint on the amounts of the rows of an import.
rows-positive :
    (texts : Texts) (org account : ℕ) (es : List ImportEntryDto)
    → All (λ e. 1 ≤ e.amount) es
    → all_by (λ e. ltb 0 e.amount) (map (new_entry texts org account) es) ≡ true
rows-positive texts org account [] h = refl
rows-positive texts org account (e ∷ es) (p, h) =
    ground (arith, p, rows-positive texts org account es h)

module _ (texts : Texts) (actor : Actor) (dto : ImportStatementDto)
    (positive : All (λ e. 1 ≤ e.amount) dto.entries) where
  abbrev pub rows_of : BankAccountRow → List StatementEntryRow
  rows_of account = map (new_entry texts actor.organization_id account.id) dto.entries

  abbrev pub inserted : BankAccountRow → List StatementEntryRow → Imported
  inserted account es = insert_entries (rows_of account) (record { entries = es; count = 0 })

  import_lem :
      (db : Database) (account : BankAccountRow)
      → find_first
          (λ a. a.id == dto.bank_account_id && a.organization_id == actor.organization_id)
          db.bank_accounts
        ≡ some account
      → Succeeds
          (λ r d.
            (r.imported ≡ (inserted account db.statement_entries).count)
            × (r.received ≡ length dto.entries)
            × (r.skipped ≡ r.received - r.imported)
            × (d.statement_entries ≡ (inserted account db.statement_entries).entries)
            × (d.bank_accounts ≡ db.bank_accounts))
          (import_statement texts actor dto db)
  unfolding import_statement import_rows require_bank_account
  import_lem db account found = Succeeds-Ensures _ (
      Ensures-present _ _ _ _ account found (
        Ensures-bind
          (λ n d.
            (n ≡ (inserted account db.statement_entries).count)
            × (d.statement_entries ≡ (inserted account db.statement_entries).entries)
            × (d.bank_accounts ≡ db.bank_accounts))
          _ _ _
          (Ensures-commit _ _ (
            Ensures-allowed _ _ _
              (rows-positive texts actor.organization_id account.id dto.entries positive)
              (Ensures-get _ _ _ (
                Ensures-write _ _ _
                  (Ensures-record_one _ _ _ (Ensures-pure _ _ (refl, refl, refl)))))))
          (λ n d (counted, entries, accounts).
            Ensures-pure _ _ (counted, refl, refl, entries, accounts))))

  -- An import of amounts above 0 into an account of the tenant succeeds: it adds as many entries as it
  -- says and leaves the others out, and the same import sent again adds none and leaves the entries as they are.
  pub import_again :
      (db : Database) (account : BankAccountRow)
      → find_first
          (λ a. a.id == dto.bank_account_id && a.organization_id == actor.organization_id)
          db.bank_accounts
        ≡ some account
      → Succeeds
          (λ r d.
            (r.imported + r.skipped ≡ length dto.entries)
            × (length d.statement_entries ≡ length db.statement_entries + r.imported)
            × Succeeds
                (λ r' d'. (r'.imported ≡ 0) × (d'.statement_entries ≡ d.statement_entries))
                (import_statement texts actor dto d))
          (import_statement texts actor dto db)
  import_again db account found =
      let (r, d, e, (counted, received, skipped, entries, accounts)) =
        import_lem db account found in
      let (r', d', e', (counted', received', skipped', entries', accounts')) =
        import_lem d account (rw accounts found) in
      let again =
        inserts_lem (rows_of account)
          (record { entries = (inserted account db.statement_entries).entries; count = 0 })
          (All-IsThere (rows_of account) (record { entries = db.statement_entries; count = 0 })) in
      let (a, b, c) =
        insert_entries-Adds (rows_of account)
          (record { entries = db.statement_entries; count = 0 }) in
      let size = length-map (new_entry texts actor.organization_id account.id) dto.entries in
      (
        r,
        d,
        e,
        (
          omega arith,
          omega (arith, ap length entries),
          (
            r',
            d',
            e',
            (
              counted' ∙ ap (λ es. (inserted account es).count) entries ∙ ap (λ s. s.count) again,
              entries'
                  ∙ ap (λ es. (inserted account es).entries) entries
                  ∙ ap (λ s. s.entries) again
                  ∙ sym entries,
            ),
          ),
        ),
      )
