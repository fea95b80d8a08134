-- ===== src/Receivables/Split.antt =====
-- `splitAmount` of src/receivables/receivables.service.ts, on whole cents: the instalments of an
-- amount, the remainder on the last.
use harpia_api.Prelude.{
  ℕ, zero, suc, ◌+◌, ◌-◌, ◌*◌, ◌/◌, ◌≤◌, ◌≡◌, refl, ◌||◌, List, [], ◌∷◌, arith, ltb, ◌==◌,
  if◌then◌else◌, length, sum_by, All, Bool-cases, inl, inr, ltb→lt, ◌∙◌, ◌<◌, ◌⊎◌,
}
use native.Mathlib.Nat.{div-mul-le_self, le-div_iff_mul-le}
use harpia_api.Store.{Error, Action, Database, run, done, thrown, pure, raise_if, ◌>>◌}

-- `Array.from({ length: count }, (_, index) => …)`, the `n` elements from `index` on
pub parts_from : (index n count total base : ℕ) → List ℕ
parts_from index zero count total base = []
parts_from index (suc n) count total base =
    (if index == count - 1 then total - base * (count - 1) else base)
    ∷ parts_from (index + 1) n count total base

-- `count` is an integer, which the guards keep between 1 and 600.
unfoldable pub split_amount : ℕ → ℕ → Action (List ℕ)
unfolding parts_from
split_amount total count = do
  raise_if (ltb count 1 || ltb 600 count) Error.invalid_installments
  raise_if (ltb total count) Error.amount_below_installments
  pure (parts_from 0 count count total (total / count))

-- Instalments that make up the whole amount, of at least one cent each.
pub record IsSplit (total count : ℕ) (amounts : List ℕ) : Type 0 where
  pub whole : sum_by (λ a. a) amounts ≡ total
  pub counted : length amounts ≡ count
  pub positive : All (λ a. 1 ≤ a) amounts

length-parts_from : (i n count total b : ℕ) → length (parts_from i n count total b) ≡ n
unfolding parts_from
length-parts_from i zero count total b = refl
length-parts_from i (suc n) count total b = omega (arith, length-parts_from (i + 1) n count total b)

sum_by-parts_from :
    (i n count total b : ℕ)
    → i + suc n ≡ count
    → sum_by (λ a. a) (parts_from i (suc n) count total b) ≡ n * b + (total - b * (count - 1))
unfolding parts_from
sum_by-parts_from i zero count total b e = ground arith
sum_by-parts_from i (suc n) count total b e =
    ground (arith, sum_by-parts_from (i + 1) n count total b)

parts_from-All :
    (i n count total b : ℕ)
    → 1 ≤ b
    → 1 ≤ total - b * (count - 1)
    → All (λ a. 1 ≤ a) (parts_from i n count total b)
unfolding parts_from
parts_from-All i zero count total b h l = tt
parts_from-All i (suc n) count total b h l =
    (ground arith, parts_from-All (i + 1) n count total b h l)

-- The guards leave a positive base, whose multiples stay below the total.
base_pos : (total count : ℕ) → 1 ≤ count → count ≤ total → 1 ≤ total / count
base_pos total count h l = (le-div_iff_mul-le h).1 (omega arith)

pred : (k : ℕ) → suc k - 1 ≡ k
pred k = omega arith

last_pos : (total k : ℕ) → suc k ≤ total → 1 ≤ total - total / suc k * (suc k - 1)
last_pos total k l =
    rw (pred k)
      (omega (arith, div-mul-le_self total (suc k), base_pos total (suc k) (omega arith) l))

whole_amount : (total k : ℕ) → k * (total / suc k) + (total - total / suc k * (suc k - 1)) ≡ total
whole_amount total k = rw (pred k) (omega (arith, div-mul-le_self total (suc k)))

parts_from-IsSplit :
    (total k : ℕ)
    → suc k ≤ total
    → IsSplit total (suc k) (parts_from 0 (suc k) (suc k) total (total / suc k))
parts_from-IsSplit total k l = record {
  whole = sum_by-parts_from 0 k (suc k) total (total / suc k) (omega arith) ∙ whole_amount total k;
  counted = length-parts_from 0 (suc k) (suc k) total (total / suc k);
  positive =
      parts_from-All 0 (suc k) (suc k) total (total / suc k)
        (base_pos total (suc k) (omega arith) l) (last_pos total k l);
}

-- `splitAmount` throws exactly when the count is outside 1 to 600 or leaves less than one cent for
-- each instalment, and changes nothing. Otherwise it returns as many instalments as asked, of at
-- least one cent each, that make up the whole amount.
pub split_amount_lem :
    (total count : ℕ) (db : Database)
    → ((1 ≤ count)
        × (count ≤ 600)
        × (count ≤ total)
        × (amounts : List ℕ) × (split_amount total count db ≡ done amounts db)
        × IsSplit total count amounts)
      ⊎ ((e : Error) × (split_amount total count db ≡ thrown e db)
          × ((count ≡ 0) ⊎ ((600 < count) ⊎ (total < count))))
unfolding split_amount run
split_amount_lem total zero db = inr (Error.invalid_installments, refl, inl refl)
split_amount_lem total (suc k) db = elim (Bool-cases (ltb (suc k) 1 || ltb 600 (suc k))) [
  | inl big ↦ inr (Error.invalid_installments, rw big refl, inr (inl (ground arith)))
  | inr fits ↦ elim (Bool-cases (ltb total (suc k))) [
    | inl small ↦
        inr (Error.amount_below_installments, rw fits (rw small refl), inr (inr (ltb→lt _ _ small)))
    | inr enough ↦ inl (
      ground arith,
      ground arith,
      ground arith,
      parts_from 0 (suc k) (suc k) total (total / suc k),
      rw fits (rw enough refl),
      parts_from-IsSplit total k (ground arith),
    )
  ]
]
