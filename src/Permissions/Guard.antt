-- ===== src/Permissions/Guard.antt =====
-- src/auth/permissions: the permissions, what each role is granted, and the guard.
use harpia_api.Prelude.{
  ℕ, Bool, true, false, ◌&&◌, Option, none, some, List, [], ◌∷◌, ◌==◌, is_some, all_by,
  if◌then◌else◌,
}

-- PERMISSIONS
pub data Permission : Type 0 where
  people_read people_write companies_read companies_write : Permission
  bank_accounts_read bank_accounts_write developments_read developments_write : Permission
  units_read units_write prices_read prices_write : Permission
  investments_read investments_write returns_read returns_write : Permission
  documents_read documents_write interactions_read interactions_write : Permission
  dashboard_read reports_export users_manage audit_read : Permission
  crm_read crm_write sales_read sales_write : Permission
  finance_read finance_write monetary_index_read monetary_index_create : Permission
  monetary_index_update monetary_index_value_read monetary_index_value_create
        monetary_index_value_update :
      Permission
  receivable_adjustment_preview receivable_adjustment_create receivable_adjustment_read : Permission

-- UserRole of prisma/schema.prisma
pub data UserRole : Type 0 where
  owner admin financeiro comercial operacional leitura : UserRole

-- The place of a permission in PERMISSIONS; two are the same text where it is the same.
abbrev pub place : Permission → ℕ
place Permission.people_read = 0
place Permission.people_write = 1
place Permission.companies_read = 2
place Permission.companies_write = 3
place Permission.bank_accounts_read = 4
place Permission.bank_accounts_write = 5
place Permission.developments_read = 6
place Permission.developments_write = 7
place Permission.units_read = 8
place Permission.units_write = 9
place Permission.prices_read = 10
place Permission.prices_write = 11
place Permission.investments_read = 12
place Permission.investments_write = 13
place Permission.returns_read = 14
place Permission.returns_write = 15
place Permission.documents_read = 16
place Permission.documents_write = 17
place Permission.interactions_read = 18
place Permission.interactions_write = 19
place Permission.dashboard_read = 20
place Permission.reports_export = 21
place Permission.users_manage = 22
place Permission.audit_read = 23
place Permission.crm_read = 24
place Permission.crm_write = 25
place Permission.sales_read = 26
place Permission.sales_write = 27
place Permission.finance_read = 28
place Permission.finance_write = 29
place Permission.monetary_index_read = 30
place Permission.monetary_index_create = 31
place Permission.monetary_index_update = 32
place Permission.monetary_index_value_read = 33
place Permission.monetary_index_value_create = 34
place Permission.monetary_index_value_update = 35
place Permission.receivable_adjustment_preview = 36
place Permission.receivable_adjustment_create = 37
place Permission.receivable_adjustment_read = 38

abbrev pub includes : List Permission → Permission → Bool
includes [] p = false
includes (q ∷ qs) p = if place q == place p then true else includes qs p

-- ALL_PERMISSIONS
abbrev pub all_permissions : List Permission
all_permissions =
    Permission.people_read ∷ Permission.people_write ∷ Permission.companies_read
    ∷ Permission.companies_write ∷ Permission.bank_accounts_read ∷ Permission.bank_accounts_write
    ∷ Permission.developments_read ∷ Permission.developments_write ∷ Permission.units_read
    ∷ Permission.units_write ∷ Permission.prices_read ∷ Permission.prices_write
    ∷ Permission.investments_read ∷ Permission.investments_write ∷ Permission.returns_read
    ∷ Permission.returns_write ∷ Permission.documents_read ∷ Permission.documents_write
    ∷ Permission.interactions_read ∷ Permission.interactions_write ∷ Permission.dashboard_read
    ∷ Permission.reports_export ∷ Permission.users_manage ∷ Permission.audit_read
    ∷ Permission.crm_read ∷ Permission.crm_write ∷ Permission.sales_read ∷ Permission.sales_write
    ∷ Permission.finance_read ∷ Permission.finance_write ∷ Permission.monetary_index_read
    ∷ Permission.monetary_index_create ∷ Permission.monetary_index_update
    ∷ Permission.monetary_index_value_read ∷ Permission.monetary_index_value_create
    ∷ Permission.monetary_index_value_update ∷ Permission.receivable_adjustment_preview
    ∷ Permission.receivable_adjustment_create ∷ Permission.receivable_adjustment_read ∷ []

-- ROLE_PERMISSIONS
abbrev pub role_permissions : UserRole → List Permission
role_permissions UserRole.owner = all_permissions
role_permissions UserRole.admin = all_permissions
role_permissions UserRole.financeiro =
    Permission.people_read ∷ Permission.companies_read ∷ Permission.bank_accounts_read
    ∷ Permission.bank_accounts_write ∷ Permission.developments_read ∷ Permission.units_read
    ∷ Permission.prices_read ∷ Permission.investments_read ∷ Permission.investments_write
    ∷ Permission.returns_read ∷ Permission.returns_write ∷ Permission.documents_read
    ∷ Permission.interactions_read ∷ Permission.dashboard_read ∷ Permission.reports_export
    ∷ Permission.finance_read ∷ Permission.finance_write ∷ Permission.monetary_index_read
    ∷ Permission.monetary_index_create ∷ Permission.monetary_index_update
    ∷ Permission.monetary_index_value_read ∷ Permission.monetary_index_value_create
    ∷ Permission.monetary_index_value_update ∷ Permission.receivable_adjustment_preview
    ∷ Permission.receivable_adjustment_create ∷ Permission.receivable_adjustment_read ∷ []
role_permissions UserRole.comercial =
    Permission.people_read ∷ Permission.people_write ∷ Permission.companies_read
    ∷ Permission.developments_read ∷ Permission.units_read ∷ Permission.prices_read
    ∷ Permission.documents_read ∷ Permission.documents_write ∷ Permission.interactions_read
    ∷ Permission.interactions_write ∷ Permission.crm_read ∷ Permission.crm_write
    ∷ Permission.sales_read ∷ Permission.sales_write ∷ []
role_permissions UserRole.operacional =
    Permission.people_read ∷ Permission.companies_read ∷ Permission.developments_read
    ∷ Permission.developments_write ∷ Permission.units_read ∷ Permission.units_write
    ∷ Permission.prices_read ∷ Permission.prices_write ∷ Permission.documents_read
    ∷ Permission.documents_write ∷ Permission.interactions_read ∷ Permission.interactions_write
    ∷ Permission.crm_read ∷ []
role_permissions UserRole.leitura =
    Permission.people_read ∷ Permission.companies_read ∷ Permission.developments_read
    ∷ Permission.units_read ∷ Permission.prices_read ∷ Permission.documents_read
    ∷ Permission.interactions_read ∷ Permission.crm_read ∷ []

-- `hasPermission`
abbrev pub has_permission : UserRole → Permission → Bool
has_permission role p = includes (role_permissions role) p

-- What `canActivate` reads from the handler, its class and the request: `user` is none where the
-- request has none, and its role is none where the token's role is no UserRole.
pub record Access : Type 0 where
  pub is_public : Bool
  pub required_permissions : Option (List Permission)
  pub allow_authenticated : Bool
  pub user : Option (Option UserRole)

abbrev pub granted : Option (Option UserRole) → List Permission
granted (some (some role)) = role_permissions role
granted _ = []

-- `requiredPermissions?.length`
abbrev pub required_of : Option (List Permission) → List Permission
required_of none = []
required_of (some ps) = ps

abbrev pub check_required : List Permission → Access → Bool
check_required [] a = a.allow_authenticated && is_some a.user
check_required (p ∷ ps) a = all_by (includes (granted a.user)) (p ∷ ps)

-- `canActivate`; false is the ForbiddenException.
unfoldable pub can_activate : Access → Bool
can_activate a = if a.is_public then true else check_required (required_of a.required_permissions) a
