-- ===== src/Tests/Permissions.antt =====
-- Routes and roles.
use harpia_api.Prelude.{true, false, ◌≡◌, ◌↔◌, refl, some, [], ◌∷◌}
use harpia_api.Permissions.Guard.{Permission, UserRole, Access, can_activate}
use harpia_api.Permissions.GuardLaws.{IsAllowed, can_activate_lem}

abbrev route : Access
route = record {
  is_public = false;
  required_permissions = some (Permission.units_read ∷ Permission.crm_read ∷ []);
  allow_authenticated = false;
  user = some (some UserRole.leitura);
}

route_test : can_activate route ≡ true
unfolding can_activate
route_test = refl

finance_test : can_activate (record route { user = some (some UserRole.financeiro) }) ≡ false
unfolding can_activate
finance_test = refl

can_activate_lem_example : (can_activate route ≡ true) ↔ IsAllowed route
can_activate_lem_example = can_activate_lem route
