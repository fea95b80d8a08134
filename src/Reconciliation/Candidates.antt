-- ===== src/Reconciliation/Candidates.antt =====
-- `candidates` of src/finance/bank-reconciliation.service.ts.
use harpia_api.Prelude.{
  ℕ, ◌+◌, ◌-◌, ◌*◌, ◌/◌, Bool, ◌&&◌, not, List, [], ◌∷◌, Text, ltb, leb, ◌==◌, is_some, is_value,
  map, take, ◌||◌, if◌then◌else◌,
}
use harpia_api.Table.{find_first, find_many}
use harpia_api.Store.{StatementEntryRow, TransactionRow, Database, Action, gets, pure, ◌>>=◌}
use harpia_api.Reconciliation.Matching.{
  is_pendente, lock_entry, expected_type, same_transaction_type,
}

-- The milliseconds of a day, `86_400_000`
abbrev pub day_ms : ℕ
day_ms = 86400000

pub record Candidate : Type 0 where
  pub transaction : TransactionRow
  pub score : ℕ

-- `orderBy: [{ date: 'asc' }, { id: 'asc' }]`
abbrev pub insert_by_date : TransactionRow → List TransactionRow → List TransactionRow
insert_by_date t [] = t ∷ []
insert_by_date t (x ∷ xs) =
    let rest = insert_by_date t xs in
    if ltb x.date t.date || x.date == t.date && ltb x.id t.id then x ∷ rest else t ∷ x ∷ xs

abbrev pub by_date : List TransactionRow → List TransactionRow
by_date [] = []
by_date (t ∷ ts) = insert_by_date t (by_date ts)

-- `.sort((left, right) => right.score - left.score)`, which keeps the order of equal scores
abbrev pub insert_by_score : Candidate → List Candidate → List Candidate
insert_by_score c [] = c ∷ []
insert_by_score c (x ∷ xs) =
    let rest = insert_by_score c xs in if ltb c.score x.score then x ∷ rest else c ∷ x ∷ xs

abbrev pub by_score : List Candidate → List Candidate
by_score [] = []
by_score (c ∷ cs) = insert_by_score c (by_score cs)

-- `Math.abs(Math.round(difference / 86_400_000))`; `Math.round` takes a half upwards, so that a half
-- counts for an earlier transaction and not for a later one.
abbrev pub days_apart : ℕ → ℕ → ℕ
days_apart statement transaction =
    if ltb statement transaction
    then (transaction - statement + (day_ms / 2 - 1)) / day_ms
    else (statement - transaction + day_ms / 2) / day_ms

-- `candidateScore`, `Math.max(70, 100 - days * 10)`
abbrev pub candidate_score : ℕ → ℕ → ℕ
candidate_score statement transaction =
    let score = 100 - days_apart statement transaction * 10 in if ltb score 70 then 70 else score

-- `time_of` is the time that the date of an entry stands for, its noon as `Date` reads it.
module _ (time_of : Text → ℕ) where
  -- The `where` of the query, from three days before the entry to four days after it
  abbrev pub is_candidate : ℕ → StatementEntryRow → List StatementEntryRow → TransactionRow → Bool
  is_candidate org e entries t =
      t.organization_id == org
      && t.bank_account_id == e.bank_account_id
      && same_transaction_type t.type (expected_type e.type)
      && t.amount == e.amount
      && not (is_some t.reversed_at)
      && not (is_some (find_first (λ x. is_value x.matched_transaction_id t.id) entries))
      && leb (time_of e.date) (t.date + 3 * day_ms)
      && ltb t.date (time_of e.date + 4 * day_ms)

  abbrev pub candidates_of : ℕ → StatementEntryRow → Database → List Candidate
  candidates_of org e db = by_score (
      map (λ t. record { transaction = t; score = candidate_score (time_of e.date) t.date })
        (take 20 (by_date (find_many (is_candidate org e db.statement_entries) db.transactions))))

  -- `candidates`
  unfoldable pub candidates : ℕ → ℕ → Action (List Candidate)
  unfolding lock_entry
  candidates id org = do
    e ← lock_entry id org
    found ← gets (candidates_of org e)
    pure (if not (is_pendente e.status) then [] else found)
