-- ===== src/Payables/Defaults.antt =====
-- What `ensureOrganization` of src/finance/financial-setup.service.ts provides.

use harpia_api.Prelude.{
  ℕ, ◌≤◌, ◌≡◌, refl, Bool, true, Option, none, some, List, [], ◌∷◌, Text, arith, All, All-weaken,
  Option-cases, inl, inr, eqb_text_refl,
}
use harpia_api.Table.{
  find_first, find_first_holds, find_first-none, count_by, count_by-append, count_by-find_first,
}
use harpia_api.Store.{
  FinancialCategoryType, FinancialCategoryRow, Database, Succeeds, or_raise, gets, modify_db, ◌>>=◌,
  ◌>>◌,
}
use harpia_api.Payables.Setup.{
  default_categories, category_key, same_type, upsert_category, upsert_categories, unless_there,
  with_defaults, ensure_organization, expense_category, comissao_text,
}

same_type_refl : (t : FinancialCategoryType) → same_type t t ≡ true
same_type_refl FinancialCategoryType.receita = refl
same_type_refl FinancialCategoryType.despesa = refl

module _ (org : ℕ) where
  -- An upsert removes no row, and afterwards there is one with its key.
  count_by-unless_there :
      (q : FinancialCategoryRow → Bool) (there : Option FinancialCategoryRow)
      (cs : List FinancialCategoryRow) (new : FinancialCategoryRow)
      → count_by q cs ≤ count_by q (unless_there there cs new)
  count_by-unless_there q none cs new = omega (arith, count_by-append q cs (new ∷ []))
  count_by-unless_there q (some c) cs new = omega arith

  unless_there_lem :
      (q : FinancialCategoryRow → Bool) (there : Option FinancialCategoryRow)
      (cs : List FinancialCategoryRow) (new : FinancialCategoryRow)
      → find_first q cs ≡ there
      → q new ≡ true
      → 1 ≤ count_by q (unless_there there cs new)
  unless_there_lem q none cs new e own = ground (arith, count_by-append q cs (new ∷ []))
  unless_there_lem q (some c) cs new e own =
      count_by-find_first q q cs c e (find_first_holds q cs c e)

  count_by-upsert :
      (q : FinancialCategoryRow → Bool) (type : FinancialCategoryType) (name : Text)
      (cs : List FinancialCategoryRow)
      → count_by q cs ≤ count_by q (upsert_category org type name cs)
  count_by-upsert q type name cs =
      count_by-unless_there q (find_first (category_key org type name) cs) cs _

  upsert_there :
      (type : FinancialCategoryType) (name : Text) (cs : List FinancialCategoryRow)
      → 1 ≤ count_by (category_key org type name) (upsert_category org type name cs)
  upsert_there type name cs =
      unless_there_lem (category_key org type name) (find_first (category_key org type name) cs) cs
        _ refl (ground (arith, eqb_text_refl name, same_type_refl type))

  count_by-upserts :
      (q : FinancialCategoryRow → Bool) (es : List (FinancialCategoryType × Text))
      (cs : List FinancialCategoryRow)
      → count_by q cs ≤ count_by q (upsert_categories org es cs)
  unfolding upsert_categories
  count_by-upserts q [] cs = omega arith
  count_by-upserts q ((type, name) ∷ es) cs = omega (
    arith,
    count_by-upsert q type name cs,
    count_by-upserts q es (upsert_category org type name cs),
  )

  upserts_there :
      (es : List (FinancialCategoryType × Text)) (cs : List FinancialCategoryRow)
      → All (λ e. 1 ≤ count_by (category_key org e.0 e.1) (upsert_categories org es cs)) es
  unfolding upsert_categories
  upserts_there [] cs = tt
  upserts_there ((type, name) ∷ es) cs = (
    omega (
      arith,
      upsert_there type name cs,
      count_by-upserts (category_key org type name) es (upsert_category org type name cs),
    ),
    upserts_there es (upsert_category org type name cs),
  )

  found :
      (q : FinancialCategoryRow → Bool) (cs : List FinancialCategoryRow)
      → 1 ≤ count_by q cs
      → (c : FinancialCategoryRow) × (find_first q cs ≡ some c)
  found q cs h = elim (Option-cases (find_first q cs)) [
    | inl e ↦ absurd (omega (arith, find_first-none q cs e, h))
    | inr there ↦ there
  ]

-- After `ensureOrganization` every default category of the organization is there, so
-- `expenseCategory` finds the category of commissions whatever the tables were.
pub ensure_organization_finds :
    (org : ℕ) (db : Database)
    → All
        (λ e.
          (c : FinancialCategoryRow) × (find_first
              (category_key org e.0 e.1)
              (with_defaults org db).financial_categories
            ≡ some c))
        default_categories
      × Succeeds (λ c d. d ≡ with_defaults org db) (expense_category org comissao_text db)
unfolding with_defaults expense_category ensure_organization ◌>>=◌ ◌>>◌ gets or_raise modify_db
ensure_organization_finds org db =
    let there = upserts_there org default_categories db.financial_categories in
    let (c, e) =
      found org (category_key org FinancialCategoryType.despesa comissao_text) _
        (there.1.1.1.1.1.0) in
    (
      All-weaken
          (λ x. 1 ≤ count_by (category_key org x.0 x.1) (with_defaults org db).financial_categories)
          (λ x.
            (c' : FinancialCategoryRow) × (find_first (category_key org x.0 x.1)
                (with_defaults org db).financial_categories
              ≡ some c'))
          default_categories (λ x h. found org (category_key org x.0 x.1) _ h) there,
      (c, with_defaults org db, rw e refl, refl),
    )
