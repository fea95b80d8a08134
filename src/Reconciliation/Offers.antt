-- ===== src/Reconciliation/Offers.antt =====
-- What `candidates` of src/finance/bank-reconciliation.service.ts offers to `match`.
use harpia_api.Prelude.{
  ℕ, ◌≤◌, ◌≡◌, refl, Bool, true, ◌&&◌, some, List, [], ◌∷◌, Text, ltb, ◌==◌, map, take, arith, All,
  All-weaken, Bool-cases, inl, inr, ◌||◌, ◌∙◌, zero, suc, ==_refl,
}
use harpia_api.Table.{find_first, find_first-modify, find_many, count_by, count_by-find_first}
use harpia_api.Store.{
  BankReconciliationStatus, StatementEntryRow, TransactionRow, Database, Actor, Succeeds,
  Succeeds-Ensures, Ensures, Ensures-present, Ensures-pass, Ensures-commit, Ensures-unique,
  Ensures-get, Ensures-write, Ensures-then, Ensures-recorded_one, Ensures-pure, or_raise, pure,
  Ensures-done, Ensures-found, done,
}
use harpia_api.Reconciliation.Matching.{
  entry_key, transaction_key, lock_entry, lock_transaction, matched_entry, match_locked,
  match_entry, is_pendente,
}
use harpia_api.Reconciliation.Candidates.{
  Candidate, insert_by_date, by_date, insert_by_score, by_score, is_candidate, candidates_of,
  candidate_score, candidates,
}

-- A row by its own key.
abbrev pub IsOwn : ℕ → List TransactionRow → TransactionRow → Type 0
IsOwn org ts t = find_first (transaction_key t.id org) ts ≡ some t

module _ (org : ℕ) (q : TransactionRow → Bool)
    (within : (t : TransactionRow) → q t ≡ true → (t.organization_id == org) ≡ true) where
  find_many-IsOwn :
      (ts : List TransactionRow)
      → ((k : ℕ) → count_by (λ t. t.id == k) ts ≤ 1)
      → All (λ t. IsOwn org ts t × (q t ≡ true)) (find_many q ts)
  find_many-IsOwn [] ids = tt
  find_many-IsOwn (x ∷ ts) ids =
      let later =
        All-weaken (λ t. IsOwn org ts t × (q t ≡ true)) (λ t. IsOwn org (x ∷ ts) t × (q t ≡ true))
          (find_many q ts)
          (λ t (own, holds). (
            ground (
              arith,
              ids t.id,
              own,
              count_by-find_first (transaction_key t.id org) (λ y. y.id == t.id) ts t own
                  (==_refl t.id),
            ),
            holds,
          ))
          (find_many-IsOwn ts (λ k. ground (arith, ids k))) in
      elim (Bool-cases (q x)) [
        | inl e ↦ rw e ((ground (arith, within x e), e), later)
        | inr e ↦ rw e later
      ]

module _ {κ} (P : TransactionRow → Type κ) where
  insert_by_date-All :
      (t : TransactionRow) (ts : List TransactionRow) → P t → All P ts → All P (insert_by_date t ts)
  insert_by_date-All t [] p a = (p, tt)
  insert_by_date-All t (x ∷ xs) p (q, a) =
      elim (Bool-cases (ltb x.date t.date || x.date == t.date && ltb x.id t.id)) [
        | inl e ↦ rw e (q, insert_by_date-All t xs p a)
        | inr e ↦ rw e (p, (q, a))
      ]

  by_date-All : (ts : List TransactionRow) → All P ts → All P (by_date ts)
  by_date-All [] a = tt
  by_date-All (t ∷ ts) (p, a) = insert_by_date-All t (by_date ts) p (by_date-All ts a)

  take-All : (n : ℕ) (ts : List TransactionRow) → All P ts → All P (take n ts)
  take-All zero ts a = tt
  take-All (suc n) [] a = tt
  take-All (suc n) (t ∷ ts) (p, a) = (p, take-All n ts a)

  scored-All :
      (score : TransactionRow → ℕ) (ts : List TransactionRow)
      → All P ts
      → All
          (λ (c : Candidate). P c.transaction)
          (map (λ t. record { transaction = t; score = score t }) ts)
  scored-All score [] a = tt
  scored-All score (t ∷ ts) (p, a) = (p, scored-All score ts a)

module _ {κ} (P : Candidate → Type κ) where
  insert_by_score-All :
      (c : Candidate) (cs : List Candidate) → P c → All P cs → All P (insert_by_score c cs)
  insert_by_score-All c [] p a = (p, tt)
  insert_by_score-All c (x ∷ xs) p (q, a) = elim (Bool-cases (ltb c.score x.score)) [
    | inl e ↦ rw e (q, insert_by_score-All c xs p a)
    | inr e ↦ rw e (p, (q, a))
  ]

  by_score-All : (cs : List Candidate) → All P cs → All P (by_score cs)
  by_score-All [] a = tt
  by_score-All (c ∷ cs) (p, a) = insert_by_score-All c (by_score cs) p (by_score-All cs a)

-- A transaction that the query for an entry finds.
abbrev pub IsOffered : (Text → ℕ) → ℕ → StatementEntryRow → Database → TransactionRow → Type 0
IsOffered time_of org e db t =
    IsOwn org db.transactions t × (is_candidate time_of org e db.statement_entries t ≡ true)

module _ (time_of : Text → ℕ) (org : ℕ) (e : StatementEntryRow) (db : Database)
    (ids : (k : ℕ) → count_by (λ t. t.id == k) db.transactions ≤ 1) where
  candidates-All :
      All (λ c. IsOffered time_of org e db c.transaction) (candidates_of time_of org e db)
  candidates-All =
      by_score-All (λ c. IsOffered time_of org e db c.transaction) _
        (scored-All (IsOffered time_of org e db) (λ t. candidate_score (time_of e.date) t.date) _
          (take-All (IsOffered time_of org e db) 20 _ (
            by_date-All (IsOffered time_of org e db) _ (
              find_many-IsOwn org (is_candidate time_of org e db.statement_entries)
                (λ t h. ground arith) db.transactions ids))))

-- An entry that is matched with a transaction.
abbrev pub IsMatchedWith : ℕ → StatementEntryRow → Type 0
IsMatchedWith k e =
    (e.status ≡ BankReconciliationStatus.conciliado) × (e.matched_transaction_id ≡ some k)

module _ (time_of : Text → ℕ) (now id : ℕ) (actor : Actor) (db : Database) (e : StatementEntryRow)
    (found : find_first (entry_key id actor.organization_id) db.statement_entries ≡ some e)
    (pending : is_pendente e.status ≡ true) where
  match_locked-succeeds :
      (t : TransactionRow)
      → IsOffered time_of actor.organization_id e db t
      → Ensures
          (λ _ d.
            find_first (entry_key id actor.organization_id) d.statement_entries
            ≡ some (matched_entry now t.id e))
          (λ _. ⊥)
          (match_locked now id t.id actor db)
  unfolding match_locked lock_entry lock_transaction
  match_locked-succeeds t (own, is) = Ensures-present _ _ _ _ e found (
      Ensures-pass _ _ _ _ (rw pending refl) (
        Ensures-present _ _ _ _ t own (
          Ensures-pass _ _ _ _ (ground arith) (
            Ensures-get _ _ _ (
              Ensures-pass _ _ _ _ (ground arith) (
                Ensures-write _ _ _ (
                  Ensures-recorded_one _ _ (
                    find_first-modify (entry_key id actor.organization_id) (λ x. x.id == e.id)
                      (matched_entry now t.id) db.statement_entries e (λ x. refl) found
                    ∙ rw (==_refl e.id) refl))))))))

  offered-Succeeds :
      ((k : ℕ) → count_by (λ t. t.id == k) db.transactions ≤ 1)
      → All
          (λ c.
            Succeeds
              (λ x d. IsMatchedWith c.transaction.id x)
              (match_entry now id c.transaction.id actor db))
          (candidates_of time_of actor.organization_id e db)
  unfolding match_entry lock_entry or_raise pure
  offered-Succeeds ids =
      All-weaken (λ c. IsOffered time_of actor.organization_id e db c.transaction)
        (λ c.
          Succeeds (λ x d. IsMatchedWith c.transaction.id x)
            (match_entry now id c.transaction.id actor db))
        (candidates_of time_of actor.organization_id e db)
        (λ c is. Succeeds-Ensures _ (
          Ensures-then _ _ _ _
            (Ensures-unique _ _ _ (Ensures-commit _ _ (match_locked-succeeds c.transaction is)))
            (λ _ d there. Ensures-get _ _ _ (rw there (Ensures-pure _ _ (refl, refl))))))
        (candidates-All time_of actor.organization_id e db ids)

-- Each of these can be matched with the entry.
abbrev pub AllMatch : ℕ → ℕ → Actor → Database → List Candidate → Type 0
AllMatch now id actor db = All (λ (c : Candidate).
    Succeeds (λ x d. IsMatchedWith c.transaction.id x)
      (match_entry now id c.transaction.id actor db))

-- Each transaction that `candidates` returns for an entry, where the identifiers of transactions are
-- unique, can be matched with it: the request to match them succeeds and returns the matched entry.
pub candidates_match :
    (time_of : Text → ℕ) (now id : ℕ) (actor : Actor) (db d : Database) (cs : List Candidate)
    → ((k : ℕ) → count_by (λ t. t.id == k) db.transactions ≤ 1)
    → candidates time_of id actor.organization_id db ≡ done cs d
    → AllMatch now id actor db cs
unfolding candidates lock_entry
candidates_match time_of now id actor db d cs ids is =
    Ensures-done {Q = λ cs' _. AllMatch now id actor db cs'} {E = λ _. Unit {0}} _ _ _ is (
      Ensures-found _ _ _ _
        (λ e found. Ensures-get _ _ _ (
          Ensures-pure _ _ (elim (Bool-cases (is_pendente e.status)) [
            | inl p ↦ rw p (offered-Succeeds time_of now id actor db e found p ids)
            | inr p ↦ rw p tt
          ])))
        tt)
