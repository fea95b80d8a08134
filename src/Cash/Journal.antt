-- ===== src/Cash/Journal.antt =====
-- What payments, their transactions and the entries of bank statements have to agree on.

use harpia_api.Prelude.{
  ℕ, ◌≤◌, ◌≡◌, refl, true, false, ◌&&◌, Option, none, some, List, [], ◌∷◌, ◌++◌, arith, ◌==◌,
  is_value, All, All-weaken,
}
use harpia_api.Table.{
  find_first, modify, count_by, count_by-append, count_by-modify_same, count_by-modify_le,
  find_first_holds, find_first-modify, find_first-append, find_first_only, find_first-none,
  count_by-modify, count_by_mono, modify-All, modify-All_to,
}
use harpia_api.Table.Single.{modify_one-All}
use harpia_api.Store.{
  BankReconciliationStatus, StatementEntryRow, TransactionRow, PaymentRow, TransactionType,
}
use harpia_api.Receivables.Payments.{is_matched, freed}
use harpia_api.Reconciliation.Matching.{
  expected_type, entry_key, transaction_key, mismatches, matched_entry, released_entry,
  same_transaction_type,
}

-- What a statement entry may be matched with: an unreversed transaction of the same account, kind and
-- amount.
pub record IsMatch (e : StatementEntryRow) (t : TransactionRow) : Type 0 where
  pub standing : t.reversed_at ≡ none
  pub account : t.bank_account_id ≡ e.bank_account_id
  pub type : t.type ≡ expected_type e.type
  pub amount : t.amount ≡ e.amount

-- An entry is matched where its status says so, and with a transaction that is there.
abbrev pub AgreesWith :
    List TransactionRow → StatementEntryRow → BankReconciliationStatus → Option ℕ → Type 0
AgreesWith ts e BankReconciliationStatus.conciliado none = ⊥
AgreesWith ts e BankReconciliationStatus.conciliado (some k) =
    (t : TransactionRow) × (find_first (λ x. x.id == k) ts ≡ some t) × IsMatch e t
AgreesWith ts e BankReconciliationStatus.pendente m = m ≡ none
AgreesWith ts e BankReconciliationStatus.ignorado m = m ≡ none

pub record IsJournal (ps : List PaymentRow) (ts : List TransactionRow) (es : List StatementEntryRow)
    : Type 0 where
  pub transaction_ids : (k : ℕ) → count_by (λ t. t.id == k) ts ≤ 1
  pub postings : (k : ℕ) → count_by (λ t. t.payment_id == k) ts ≤ 1
  -- The foreign key of the transactions.
  pub posted : (k : ℕ) → count_by (λ p. p.id == k) ps ≡ 0 → count_by (λ t. t.payment_id == k) ts ≡ 0
  pub entry_ids : (k : ℕ) → count_by (λ e. e.id == k) es ≤ 1
  pub matched : All (λ e. AgreesWith ts e e.status e.matched_transaction_id) es
  pub once : (k : ℕ) → count_by (is_matched k) es ≤ 1

same_transaction_type-eq : (a b : TransactionType) → same_transaction_type a b ≡ true → a ≡ b
same_transaction_type-eq TransactionType.entrada TransactionType.entrada h = refl
same_transaction_type-eq TransactionType.saida TransactionType.saida h = refl
same_transaction_type-eq TransactionType.entrada TransactionType.saida h = cc
same_transaction_type-eq TransactionType.saida TransactionType.entrada h = cc

-- Entries agree with more transactions, or with ones that the matched transaction is among.
AgreesWith-weaken :
    (ts ts' : List TransactionRow) (e : StatementEntryRow) (status : BankReconciliationStatus)
    (m : Option ℕ)
    → ((k : ℕ) (t : TransactionRow)
        → m ≡ some k
        → find_first (λ x. x.id == k) ts ≡ some t
        → find_first (λ x. x.id == k) ts' ≡ some t)
    → AgreesWith ts e status m
    → AgreesWith ts' e status m
AgreesWith-weaken ts ts' e BankReconciliationStatus.conciliado none h a = a
AgreesWith-weaken ts ts' e BankReconciliationStatus.conciliado (some k) h (t, found, is) =
    (t, h k t refl found, is)
AgreesWith-weaken ts ts' e BankReconciliationStatus.pendente m h a = a
AgreesWith-weaken ts ts' e BankReconciliationStatus.ignorado m h a = a

module _ (ps : List PaymentRow) (ts : List TransactionRow) (es : List StatementEntryRow)
    (valid : IsJournal ps ts es) where
  -- A payment with its transaction.
  pub post-IsJournal :
      (p : PaymentRow) (t : TransactionRow)
      → t.payment_id ≡ p.id
      → count_by (λ x. x.id == p.id) ps ≡ 0
      → count_by (λ x. x.id == t.id) ts ≡ 0
      → IsJournal (ps ++ p ∷ []) (ts ++ t ∷ []) es
  post-IsJournal p t of new_payment new_transaction = record {
    transaction_ids = λ k. ground (
      arith,
      valid.transaction_ids k,
      new_transaction,
      count_by-append (λ x. x.id == k) ts (t ∷ []),
    );
    postings = λ k. ground (
      arith,
      valid.postings k,
      of,
      valid.posted p.id new_payment,
      count_by-append (λ x. x.payment_id == k) ts (t ∷ []),
    );
    posted = λ k none_left. ground (
      arith,
      of,
      none_left,
      valid.posted k,
      count_by-append (λ x. x.id == k) ps (p ∷ []),
      count_by-append (λ x. x.payment_id == k) ts (t ∷ []),
    );
    entry_ids = valid.entry_ids;
    matched =
        All-weaken (λ e. AgreesWith ts e e.status e.matched_transaction_id)
          (λ e. AgreesWith (ts ++ t ∷ []) e e.status e.matched_transaction_id) es
          (λ e.
            AgreesWith-weaken ts (ts ++ t ∷ []) e e.status e.matched_transaction_id
              (λ k x _ found. find_first-append (λ y. y.id == k) ts (t ∷ []) x found))
          valid.matched;
    once = valid.once;
  }

  module _ (e : StatementEntryRow) (id org : ℕ)
      (found : find_first (entry_key id org) es ≡ some e) where
    pub release-IsJournal :
        (now : ℕ) (target : BankReconciliationStatus)
        → ((x : StatementEntryRow) → AgreesWith ts x target none)
        → IsJournal ps ts (modify (λ x. x.id == e.id) (released_entry now target) es)
    release-IsJournal now target free = record {
      transaction_ids = valid.transaction_ids;
      postings = valid.postings;
      posted = valid.posted;
      entry_ids = λ k. omega (
        arith,
        valid.entry_ids k,
        count_by-modify_same (λ x. x.id == e.id) (λ x. x.id == k) (released_entry now target) es
            (λ x h. refl),
      );
      matched =
          modify-All (λ x. AgreesWith ts x x.status x.matched_transaction_id) (λ x. x.id == e.id)
            (released_entry now target) es (λ x h a. free (released_entry now target x))
            valid.matched;
      once = λ k. omega (
        arith,
        valid.once k,
        count_by-modify_le (λ x. x.id == e.id) (is_matched k) (released_entry now target) es
            (λ x h same. cc),
      );
    }

    IsMatch-matched :
        (now : ℕ) (t : TransactionRow)
        → mismatches e t ≡ false
        → IsMatch (matched_entry now t.id e) t
    IsMatch-matched now t agrees =
        ground (arith, same_transaction_type-eq t.type (expected_type e.type))

    pub match-IsJournal :
        (now transaction_id : ℕ) (t : TransactionRow)
        → find_first (transaction_key transaction_id org) ts ≡ some t
        → mismatches e t ≡ false
        → find_first (λ x. is_value x.matched_transaction_id t.id) es ≡ none
        → IsJournal ps ts (modify (λ x. x.id == e.id) (matched_entry now t.id) es)
    match-IsJournal now transaction_id t there agrees free = record {
      transaction_ids = valid.transaction_ids;
      postings = valid.postings;
      posted = valid.posted;
      entry_ids = λ k. omega (
        arith,
        valid.entry_ids k,
        count_by-modify_same (λ x. x.id == e.id) (λ x. x.id == k) (matched_entry now t.id) es
            (λ x h. refl),
      );
      matched =
          modify_one-All (λ x. AgreesWith ts x x.status x.matched_transaction_id)
            (λ x. AgreesWith ts x x.status x.matched_transaction_id) (λ x. x.id == e.id)
            (entry_key id org) (matched_entry now t.id) es e (valid.entry_ids e.id) found
            (ground arith) (λ x a _. a)
            (
              t,
              find_first_only (λ x. x.id == t.id) (transaction_key transaction_id org) ts t
                  (valid.transaction_ids t.id) there (ground arith),
              IsMatch-matched now t agrees,
            )
            valid.matched;
      once = λ k. ground (
        arith,
        valid.once k,
        find_first-none (is_matched t.id) es free,
        valid.entry_ids e.id,
        count_by-modify (λ x. x.id == e.id) (is_matched k) (matched_entry now t.id) es,
        count_by_mono (λ x. x.id == e.id && is_matched k (matched_entry now t.id x))
            (λ x. x.id == e.id) es (λ x h. ground arith),
        count_by-modify_le (λ x. x.id == e.id) (is_matched k) (matched_entry now t.id) es,
      );
    }

  -- The reversal of a payment and of its transaction frees the entry that was matched with it.
  pub reverse-IsJournal :
      (now : ℕ) (g : PaymentRow → PaymentRow) (p : PaymentRow) (t : TransactionRow)
      → ((x : PaymentRow) → (g x).id ≡ x.id)
      → find_first (λ x. x.payment_id == p.id) ts ≡ some t
      → IsJournal
          (modify (λ x. x.id == p.id) g ps)
          (modify (λ x. x.payment_id == p.id) (λ x. record x { reversed_at = some now }) ts)
          (modify (is_matched t.id) freed es)
  reverse-IsJournal now g p t named there = record {
    transaction_ids = λ k. omega (
      arith,
      valid.transaction_ids k,
      count_by-modify_same (λ x. x.payment_id == p.id) (λ x. x.id == k)
          (λ x. record x { reversed_at = some now }) ts (λ x h. refl),
    );
    postings = λ k. omega (
      arith,
      valid.postings k,
      count_by-modify_same (λ x. x.payment_id == p.id) (λ x. x.payment_id == k)
          (λ x. record x { reversed_at = some now }) ts (λ x h. refl),
    );
    posted = λ k none_left. omega (
      arith,
      valid.posted k (
          omega (
            arith,
            none_left,
            count_by-modify_same (λ x. x.id == p.id) (λ x. x.id == k) g ps
                (λ x h. rw (named x) refl),
          )),
      count_by-modify_same (λ x. x.payment_id == p.id) (λ x. x.payment_id == k)
          (λ x. record x { reversed_at = some now }) ts (λ x h. refl),
    );
    entry_ids = λ k. omega (
      arith,
      valid.entry_ids k,
      count_by-modify_same (is_matched t.id) (λ x. x.id == k) freed es (λ x h. refl),
    );
    matched =
        modify-All_to (λ e. AgreesWith ts e e.status e.matched_transaction_id)
          (λ e. AgreesWith after e e.status e.matched_transaction_id) (is_matched t.id) freed es
          (λ e a is. refl)
          (λ e a other.
            AgreesWith-weaken ts after e e.status e.matched_transaction_id
              (λ k x of found. untouched k x (not_its e k of other) found) a)
          valid.matched;
    once = λ k. omega (
      arith,
      valid.once k,
      count_by-modify_le (is_matched t.id) (is_matched k) freed es (λ x h same. cc),
    );
  }
    where
      after : List TransactionRow
      after = modify (λ x. x.payment_id == p.id) (λ x. record x { reversed_at = some now }) ts

      not_its :
          (e : StatementEntryRow) (k : ℕ)
          → e.matched_transaction_id ≡ some k
          → is_matched t.id e ≡ false
          → (k == t.id) ≡ false
      not_its e k of other = ground arith

      untouched :
          (k : ℕ) (x : TransactionRow)
          → (k == t.id) ≡ false
          → find_first (λ y. y.id == k) ts ≡ some x
          → find_first (λ y. y.id == k) after ≡ some x
      untouched k x ne found = ground (
        arith,
        find_first-modify (λ y. y.id == k) (λ y. y.payment_id == p.id)
            (λ y. record y { reversed_at = some now }) ts x (λ y. refl) found,
        find_first_holds (λ y. y.id == k) ts x found,
        find_first_only (λ y. y.payment_id == p.id) (λ y. y.id == k) ts x (valid.postings p.id)
            found,
        there,
      )
