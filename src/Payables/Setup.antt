-- ===== src/Payables/Setup.antt =====
-- The default categories and cost centres of an organization, src/finance/financial-setup.service.ts.
use harpia_api.Prelude.{
  ℕ, Bool, true, false, ◌&&◌, Option, none, some, List, [], ◌∷◌, ◌++◌, Text, ◌==◌, eqb_text,
}
use harpia_api.Table.{find_first, find_many, modify}
use harpia_api.Table.Keys.{next_id}
use harpia_api.Store.{
  CompanyType, CompanyRow, FinancialCategoryType, FinancialCategoryRow, CostCenterRow, Database,
  Action, Error, or_raise, gets, modify_db, ◌>>=◌, ◌>>◌,
}

-- "Comissão"
abbrev pub comissao_text : Text
comissao_text = 67 ∷ 111 ∷ 109 ∷ 105 ∷ 115 ∷ 115 ∷ 227 ∷ 111 ∷ []

-- "Incorporadora geral"
abbrev pub general_text : Text
general_text =
    73 ∷ 110 ∷ 99 ∷ 111 ∷ 114 ∷ 112 ∷ 111 ∷ 114 ∷ 97 ∷ 100 ∷ 111 ∷ 114 ∷ 97 ∷ 32 ∷ 103 ∷ 101 ∷ 114
    ∷ 97 ∷ 108 ∷ []

-- "Venda de unidade"
abbrev pub venda_de_unidade_text : Text
venda_de_unidade_text =
    86 ∷ 101 ∷ 110 ∷ 100 ∷ 97 ∷ 32 ∷ 100 ∷ 101 ∷ 32 ∷ 117 ∷ 110 ∷ 105 ∷ 100 ∷ 97 ∷ 100 ∷ 101 ∷ []

-- "Investimento"
abbrev pub investimento_text : Text
investimento_text = 73 ∷ 110 ∷ 118 ∷ 101 ∷ 115 ∷ 116 ∷ 105 ∷ 109 ∷ 101 ∷ 110 ∷ 116 ∷ 111 ∷ []

-- "Outras receitas"
abbrev pub outras_receitas_text : Text
outras_receitas_text =
    79 ∷ 117 ∷ 116 ∷ 114 ∷ 97 ∷ 115 ∷ 32 ∷ 114 ∷ 101 ∷ 99 ∷ 101 ∷ 105 ∷ 116 ∷ 97 ∷ 115 ∷ []

-- "Obra"
abbrev pub obra_text : Text
obra_text = 79 ∷ 98 ∷ 114 ∷ 97 ∷ []

-- "Marketing"
abbrev pub marketing_text : Text
marketing_text = 77 ∷ 97 ∷ 114 ∷ 107 ∷ 101 ∷ 116 ∷ 105 ∷ 110 ∷ 103 ∷ []

-- "Retorno de investidor"
abbrev pub retorno_de_investidor_text : Text
retorno_de_investidor_text =
    82 ∷ 101 ∷ 116 ∷ 111 ∷ 114 ∷ 110 ∷ 111 ∷ 32 ∷ 100 ∷ 101 ∷ 32 ∷ 105 ∷ 110 ∷ 118 ∷ 101 ∷ 115 ∷ 116
    ∷ 105 ∷ 100 ∷ 111 ∷ 114 ∷ []

-- "Administrativo"
abbrev pub administrativo_text : Text
administrativo_text =
    65 ∷ 100 ∷ 109 ∷ 105 ∷ 110 ∷ 105 ∷ 115 ∷ 116 ∷ 114 ∷ 97 ∷ 116 ∷ 105 ∷ 118 ∷ 111 ∷ []

-- "Tributos"
abbrev pub tributos_text : Text
tributos_text = 84 ∷ 114 ∷ 105 ∷ 98 ∷ 117 ∷ 116 ∷ 111 ∷ 115 ∷ []

-- "Distrato"
abbrev pub distrato_text : Text
distrato_text = 68 ∷ 105 ∷ 115 ∷ 116 ∷ 114 ∷ 97 ∷ 116 ∷ 111 ∷ []

-- "Outras despesas"
abbrev pub outras_despesas_text : Text
outras_despesas_text =
    79 ∷ 117 ∷ 116 ∷ 114 ∷ 97 ∷ 115 ∷ 32 ∷ 100 ∷ 101 ∷ 115 ∷ 112 ∷ 101 ∷ 115 ∷ 97 ∷ 115 ∷ []

-- DEFAULT_CATEGORIES
abbrev pub default_categories : List (FinancialCategoryType × Text)
default_categories =
    (FinancialCategoryType.receita, venda_de_unidade_text)
    ∷ (FinancialCategoryType.receita, investimento_text)
    ∷ (FinancialCategoryType.receita, outras_receitas_text)
    ∷ (FinancialCategoryType.despesa, obra_text)
    ∷ (FinancialCategoryType.despesa, marketing_text)
    ∷ (FinancialCategoryType.despesa, comissao_text)
    ∷ (FinancialCategoryType.despesa, retorno_de_investidor_text)
    ∷ (FinancialCategoryType.despesa, administrativo_text)
    ∷ (FinancialCategoryType.despesa, tributos_text)
    ∷ (FinancialCategoryType.despesa, distrato_text)
    ∷ (FinancialCategoryType.despesa, outras_despesas_text)
    ∷ []

abbrev pub same_type : FinancialCategoryType → FinancialCategoryType → Bool
same_type FinancialCategoryType.receita FinancialCategoryType.receita = true
same_type FinancialCategoryType.despesa FinancialCategoryType.despesa = true
same_type _ _ = false

-- The unique key `organizationId_name_type`.
abbrev pub category_key : ℕ → FinancialCategoryType → Text → FinancialCategoryRow → Bool
category_key org type name c =
    c.organization_id == org && eqb_text c.name name && same_type c.type type

abbrev pub new_category : ℕ → FinancialCategoryType → Text → ℕ → FinancialCategoryRow
new_category org type name id = record {
  id = id;
  organization_id = org;
  name = name;
  type = type;
  is_default = true;
}

abbrev pub unless_there :
    Option FinancialCategoryRow
    → List FinancialCategoryRow
    → FinancialCategoryRow
    → List FinancialCategoryRow
unless_there none cs new = cs ++ new ∷ []
unless_there (some c) cs new = cs

-- `financialCategory.upsert` with nothing to update
abbrev pub upsert_category :
    ℕ → FinancialCategoryType → Text → List FinancialCategoryRow → List FinancialCategoryRow
upsert_category org type name cs =
    unless_there (find_first (category_key org type name) cs) cs
      (new_category org type name (next_id (λ c. c.id) cs))

unfoldable pub upsert_categories :
    ℕ → List (FinancialCategoryType × Text) → List FinancialCategoryRow → List FinancialCategoryRow
upsert_categories org [] cs = cs
upsert_categories org ((type, name) ∷ rest) cs =
    upsert_categories org rest (upsert_category org type name cs)

abbrev pub is_spe : CompanyRow → Bool
is_spe c = elim c.type [ CompanyType.spe ↦ true | CompanyType.incorporadora ↦ false ]

abbrev pub is_incorporadora : CompanyRow → Bool
is_incorporadora c = elim c.type [ CompanyType.spe ↦ false | CompanyType.incorporadora ↦ true ]

-- The unique key `organizationId_name`.
abbrev pub cost_center_key : ℕ → Text → CostCenterRow → Bool
cost_center_key org name c = c.organization_id == org && eqb_text c.name name

abbrev pub new_cost_center : ℕ → Text → Option ℕ → ℕ → CostCenterRow
new_cost_center org name company id = record {
  id = id;
  organization_id = org;
  name = name;
  development_id = none;
  company_id = company;
  active = true;
}

abbrev pub of_company : Option ℕ → CostCenterRow → CostCenterRow
of_company none c = c
of_company (some company) c = record c { company_id = some company }

-- `costCenter.upsert`; without a company there is nothing to update.
abbrev pub upsert_cost_center : ℕ → Text → Option ℕ → List CostCenterRow → List CostCenterRow
upsert_cost_center org name company cs = elim (find_first (cost_center_key org name) cs) [
  | some c ↦ modify (cost_center_key org name) (of_company company) cs
  | none ↦ cs ++ new_cost_center org name company (next_id (λ c. c.id) cs) ∷ []
]

unfoldable pub upsert_cost_centers : ℕ → List CompanyRow → List CostCenterRow → List CostCenterRow
upsert_cost_centers org [] cs = cs
upsert_cost_centers org (c ∷ rest) cs =
    upsert_cost_centers org rest (upsert_cost_center org c.name (some c.id) cs)

abbrev pub company_id_of : Option CompanyRow → Option ℕ
company_id_of none = none
company_id_of (some c) = some c.id

-- The writes of `ensureOrganization`; the table of companies is in the order of their creation.
unfoldable pub with_defaults : ℕ → Database → Database
unfolding upsert_categories upsert_cost_centers
with_defaults org db =
    let companies = find_many (λ (c : CompanyRow). c.organization_id == org) db.companies in
    record db {
      financial_categories = upsert_categories org default_categories db.financial_categories;
      cost_centers = upsert_cost_centers org (find_many is_spe companies) (
          upsert_cost_center org general_text
            (company_id_of (find_first is_incorporadora companies)) db.cost_centers);
    }

unfoldable pub ensure_organization : ℕ → Action (Unit {0})
unfolding with_defaults
ensure_organization org = modify_db (with_defaults org)

unfoldable pub expense_category : ℕ → Text → Action FinancialCategoryRow
unfolding ensure_organization
expense_category org name = do
  ensure_organization org
  or_raise
      (← gets (λ db.
        find_first (category_key org FinancialCategoryType.despesa name) db.financial_categories))
      Error.category_missing

unfoldable pub general_cost_center : ℕ → Action CostCenterRow
unfolding ensure_organization
general_cost_center org = do
  ensure_organization org
  or_raise (← gets (λ db. find_first (cost_center_key org general_text) db.cost_centers))
      Error.cost_center_missing
