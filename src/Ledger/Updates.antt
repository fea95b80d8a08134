-- ===== src/Ledger/Updates.antt =====
-- An account of debts and payments after a payment, a reversal, a new debt and a change of one debt.
use harpia_api.Prelude.{
  ℕ, ◌+◌, ◌≤◌, ◌≡◌, refl, sym, ◌∙◌, Bool, true, false, none, some, List, [], ◌∷◌, ◌++◌, arith, ◌==◌,
  is_some, is_value, if◌then◌else◌, sum_by-append, All, All-append, All-weaken,
}
use harpia_api.Table.{
  count_by-find_first, find_first, modify, count_by, count_by-append, count_by-modify_same,
  find_first-All, modify-All,
}
use harpia_api.Table.Single.{modify_one-All, sum_by-modify_one}
use harpia_api.Store.{PaymentRow}
use harpia_api.Ledger.{Debts, pending, HasStatus, counts_for, paid_for, IsSettled, IsAccount}

module _ {R : Type 0} (D : Debts R) where
  ids-modify :
      (p : R → Bool) (f : R → R) (rs : List R) (k : ℕ)
      → ((r : R) → D.id_of (f r) ≡ D.id_of r)
      → count_by (λ r. D.id_of r == k) (modify p f rs) ≡ count_by (λ r. D.id_of r == k) rs
  ids-modify p f rs k h = count_by-modify_same p (λ r. D.id_of r == k) f rs (λ r e. rw (h r) refl)

  -- The change of the one debt that a query found, with payments that move only its sum.
  pub restate-IsAccount :
      (q : R → Bool) (f : R → R) (rs : List R) (ps ps' : List PaymentRow) (r : R)
      → IsAccount D rs ps
      → find_first q rs ≡ some r
      → ((x : R) → D.id_of (f x) ≡ D.id_of x)
      → ((k : ℕ) → (k == D.id_of r) ≡ false → paid_for D k ps' ≡ paid_for D k ps)
      → ((k : ℕ) → count_by (λ p. p.id == k) ps' ≤ 1)
      → All (λ p. 1 ≤ p.amount) ps'
      → IsSettled D ps' (f r)
      → IsAccount D (modify (λ x. D.id_of x == D.id_of r) f rs) ps'
  restate-IsAccount q f rs ps ps' r valid found named others ids positive new = record {
    ids = λ k. omega (arith, valid.ids k, same k);
    payment_ids = ids;
    settled =
        modify_one-All (IsSettled D ps) (IsSettled D ps') (λ x. D.id_of x == D.id_of r) q f rs r
          (valid.ids (D.id_of r)) found (ground arith)
          (λ x ok ne. record {
            paid = omega (arith, ok.paid, others (D.id_of x) ne);
            within = ok.within;
            status = ok.status;
          })
          new valid.settled;
    positive = positive;
    linked = λ k none_left. ground (
      arith,
      valid.linked k,
      same k,
      none_left,
      others k,
      count_by-find_first q (λ x. D.id_of x == k) rs r found,
    );
  }
    where
      same :
          (k : ℕ)
          → count_by (λ x. D.id_of x == k) (modify (λ x. D.id_of x == D.id_of r) f rs)
            ≡ count_by (λ x. D.id_of x == k) rs
      same k = ids-modify (λ x. D.id_of x == D.id_of r) f rs k named

  -- Other payments that count the same towards every debt.
  same_sums-IsAccount :
      (rs : List R) (ps ps' : List PaymentRow)
      → IsAccount D rs ps
      → ((k : ℕ) → paid_for D k ps' ≡ paid_for D k ps)
      → ((k : ℕ) → count_by (λ p. p.id == k) ps' ≤ 1)
      → All (λ p. 1 ≤ p.amount) ps'
      → IsAccount D rs ps'
  same_sums-IsAccount rs ps ps' valid same ids positive = record {
    ids = valid.ids;
    payment_ids = ids;
    settled =
        All-weaken (IsSettled D ps) (IsSettled D ps') rs
          (λ x ok. record {
            paid = omega (arith, ok.paid, same (D.id_of x));
            within = ok.within;
            status = ok.status;
          })
          valid.settled;
    positive = positive;
    linked = λ k e. omega (arith, valid.linked k e, same k);
  }

  -- A new debt with nothing paid.
  pub insert-IsAccount :
      (rs : List R) (ps : List PaymentRow) (row : R)
      → count_by (λ r. D.id_of r == D.id_of row) rs ≡ 0
      → D.paid row ≡ 0
      → D.state row ≡ pending
      → IsAccount D rs ps
      → IsAccount D (rs ++ row ∷ []) ps
  insert-IsAccount rs ps row fresh unpaid new valid = record {
    ids = λ k.
        ground (arith, valid.ids k, fresh, count_by-append (λ r. D.id_of r == k) rs (row ∷ []));
    payment_ids = valid.payment_ids;
    settled = All-append (IsSettled D ps) rs (row ∷ []) valid.settled (
      record {
        paid = unpaid ∙ sym (valid.linked (D.id_of row) fresh);
        within = omega (arith, unpaid);
        status = rw new unpaid;
      },
      tt,
    );
    positive = valid.positive;
    linked = λ k none_left.
        valid.linked k
          (omega (arith, none_left, count_by-append (λ r. D.id_of r == k) rs (row ∷ [])));
  }

  module _ (rs : List R) (ps : List PaymentRow) (valid : IsAccount D rs ps) (p : PaymentRow)
      (fresh : count_by (λ x. x.id == p.id) ps ≡ 0) (amount : 1 ≤ p.amount) where
    payment_ids-append : (k : ℕ) → count_by (λ x. x.id == k) (ps ++ p ∷ []) ≤ 1
    payment_ids-append k =
        ground (arith, valid.payment_ids k, fresh, count_by-append (λ x. x.id == k) ps (p ∷ []))

    positive-append : All (λ x. 1 ≤ x.amount) (ps ++ p ∷ [])
    positive-append = All-append (λ x. 1 ≤ x.amount) ps (p ∷ []) valid.positive (amount, tt)

    -- A payment for the one debt that a query found.
    pub pay-IsAccount :
        (q : R → Bool) (f : R → R) (r : R)
        → find_first q rs ≡ some r
        → ((x : R) → D.id_of (f x) ≡ D.id_of x)
        → D.debt_of p ≡ some (D.id_of r)
        → is_some p.reversed_at ≡ false
        → D.paid (f r) ≡ D.paid r + p.amount
        → D.paid (f r) ≤ D.owed (f r)
        → HasStatus (D.state (f r)) (D.paid (f r)) (D.owed (f r))
        → IsAccount D (modify (λ x. D.id_of x == D.id_of r) f rs) (ps ++ p ∷ [])
    pay-IsAccount q f r found named towards standing added within status =
        restate-IsAccount q f rs ps (ps ++ p ∷ []) r valid found named
          (λ k ne. ground (arith, towards, ne, sum_by-append (counts_for D k) ps (p ∷ [])))
          payment_ids-append positive-append
          (record {
            paid = ground (
              arith,
              towards,
              standing,
              added,
              named r,
              (find_first-All (IsSettled D ps) q rs r valid.settled found).paid,
              sum_by-append (counts_for D (D.id_of r)) ps (p ∷ []),
            );
            within = within;
            status = status;
          })

    -- A payment of another table of debts.
    pub other_payment-IsAccount : D.debt_of p ≡ none → IsAccount D rs (ps ++ p ∷ [])
    other_payment-IsAccount elsewhere =
        same_sums-IsAccount rs ps (ps ++ p ∷ []) valid
          (λ k. ground (arith, elsewhere, sum_by-append (counts_for D k) ps (p ∷ [])))
          payment_ids-append positive-append

  module _ (rs : List R) (ps : List PaymentRow) (valid : IsAccount D rs ps)
      (key : PaymentRow → Bool) (g : PaymentRow → PaymentRow) (p : PaymentRow)
      (paid : find_first key ps ≡ some p) (same_id : (x : PaymentRow) → (g x).id ≡ x.id)
      (same_amount : (x : PaymentRow) → (g x).amount ≡ x.amount)
      (same_debt : (x : PaymentRow) → D.debt_of (g x) ≡ D.debt_of x) where
    payment_ids-modify : (k : ℕ) → count_by (λ x. x.id == k) (modify (λ x. x.id == p.id) g ps) ≤ 1
    payment_ids-modify k = omega (
      arith,
      valid.payment_ids k,
      count_by-modify_same (λ x. x.id == p.id) (λ x. x.id == k) g ps (λ x t. rw (same_id x) refl),
    )

    positive-modify : All (λ x. 1 ≤ x.amount) (modify (λ x. x.id == p.id) g ps)
    positive-modify =
        modify-All (λ x. 1 ≤ x.amount) (λ x. x.id == p.id) g ps
          (λ x t h. omega (arith, same_amount x, h)) valid.positive

    refund_moves :
        (k : ℕ)
        → is_some p.reversed_at ≡ false
        → is_some (g p).reversed_at ≡ true
        → paid_for D k (modify (λ x. x.id == p.id) g ps)
            + (if is_value (D.debt_of p) k then p.amount else 0)
          ≡ paid_for D k ps
    refund_moves k standing reversed = ground (
      arith,
      sum_by-modify_one (counts_for D k) (λ x. x.id == p.id) key g ps p (valid.payment_ids p.id)
          paid (ground arith),
    )

    -- The reversal of a payment for the one debt that a query found.
    pub refund-IsAccount :
        (q : R → Bool) (f : R → R) (r : R)
        → find_first q rs ≡ some r
        → ((x : R) → D.id_of (f x) ≡ D.id_of x)
        → is_value (D.debt_of p) (D.id_of r) ≡ true
        → is_some p.reversed_at ≡ false
        → is_some (g p).reversed_at ≡ true
        → D.paid (f r) + p.amount ≡ D.paid r
        → D.paid (f r) ≤ D.owed (f r)
        → HasStatus (D.state (f r)) (D.paid (f r)) (D.owed (f r))
        → IsAccount D (modify (λ x. D.id_of x == D.id_of r) f rs) (modify (λ x. x.id == p.id) g ps)
    refund-IsAccount q f r found named towards standing reversed left within status =
        restate-IsAccount q f rs ps (modify (λ x. x.id == p.id) g ps) r valid found named
          (λ k ne. ground (arith, towards, ne, refund_moves k standing reversed)) payment_ids-modify
          positive-modify
          (record {
            paid = ground (
              arith,
              towards,
              left,
              named r,
              (find_first-All (IsSettled D ps) q rs r valid.settled found).paid,
              refund_moves (D.id_of r) standing reversed,
            );
            within = within;
            status = status;
          })

    -- The reversal of a payment of another table of debts.
    pub other_reversal-IsAccount :
        D.debt_of p ≡ none
        → is_some p.reversed_at ≡ false
        → is_some (g p).reversed_at ≡ true
        → IsAccount D rs (modify (λ x. x.id == p.id) g ps)
    other_reversal-IsAccount elsewhere standing reversed =
        same_sums-IsAccount rs ps (modify (λ x. x.id == p.id) g ps) valid
          (λ k. ground (arith, elsewhere, refund_moves k standing reversed)) payment_ids-modify
          positive-modify
