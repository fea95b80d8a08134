-- ===== src/Permissions/GuardLaws.antt =====
-- The guard of src/auth/permissions/permissions.guard.ts against a direct description of access.
use harpia_api.Prelude.{
  Bool, true, false, ◌≡◌, refl, ◌⊎◌, ◌↔◌, inl, inr, Option, none, some, List, [], ◌∷◌, All, all_by,
  is_some, arith, if◌then◌else◌,
}
use harpia_api.Permissions.Guard.{
  Permission, UserRole, Access, includes, role_permissions, has_permission, granted, required_of,
  check_required, can_activate,
}

-- A user with a role that is granted all of `ps`.
abbrev pub MayDo : List Permission → Option (Option UserRole) → Type 0
MayDo ps u = (role : UserRole) × (u ≡ some (some role)) × All (λ p. has_permission role p ≡ true) ps

-- A route that asks for no permission has to be open to who is logged in; another asks for a role
-- that is granted all.
abbrev pub Admits : List Permission → Access → Type 0
Admits [] a = (a.allow_authenticated ≡ true) × (is_some a.user ≡ true)
Admits (p ∷ ps) a = MayDo (p ∷ ps) a.user

abbrev pub IsAllowed : Access → Type 0
IsAllowed a = (a.is_public ≡ true) ⊎ Admits (required_of a.required_permissions) a

each_of_test :
    (q : Permission → Bool) (ps : List Permission) → all_by q ps ≡ true → All (λ p. q p ≡ true) ps
each_of_test q [] h = tt
each_of_test q (p ∷ ps) h = (ground (arith, h), each_of_test q ps (ground (arith, h)))

test_of_each :
    (q : Permission → Bool) (ps : List Permission) → All (λ p. q p ≡ true) ps → all_by q ps ≡ true
test_of_each q [] h = refl
test_of_each q (p ∷ ps) (hp, h) = rw hp (test_of_each q ps h)

granted→MayDo :
    (p : Permission) (ps : List Permission) (u : Option (Option UserRole))
    → all_by (includes (granted u)) (p ∷ ps) ≡ true
    → MayDo (p ∷ ps) u
granted→MayDo p ps none h = cc
granted→MayDo p ps (some none) h = cc
granted→MayDo p ps (some (some role)) h =
    (role, refl, each_of_test (includes (role_permissions role)) (p ∷ ps) h)

MayDo→granted :
    (ps : List Permission) (u : Option (Option UserRole))
    → MayDo ps u
    → all_by (includes (granted u)) ps ≡ true
MayDo→granted ps u (role, is, all) = rw is (test_of_each (includes (role_permissions role)) ps all)

check_required_lem :
    (ps : List Permission) (a : Access) → (check_required ps a ≡ true) ↔ Admits ps a
check_required_lem [] a =
    ((λ h. (ground (arith, h), ground (arith, h))), (λ (open_to, there). rw open_to there))
check_required_lem (p ∷ ps) a = (granted→MayDo p ps a.user, MayDo→granted (p ∷ ps) a.user)

either_passes :
    {X : Type 0} (b c : Bool)
    → ((c ≡ true) ↔ X)
    → ((if b then true else c) ≡ true) ↔ ((b ≡ true) ⊎ X)
either_passes true c h = ((λ x. inl refl), (λ x. refl))
either_passes {X} false c (there, back) = ((λ x. inr (there x)), back_of)
  where
    back_of : (false ≡ true) ⊎ X → c ≡ true
    back_of (inl x) = cc
    back_of (inr x) = back x

-- The guard lets a request pass exactly where the route is public, or it asks for no permission, is
-- open to who is logged in and there is a user, or it asks for some and the user has a role that is
-- granted all of them.
pub can_activate_lem : (a : Access) → (can_activate a ≡ true) ↔ IsAllowed a
unfolding can_activate
can_activate_lem a =
    either_passes a.is_public (check_required (required_of a.required_permissions) a)
      (check_required_lem (required_of a.required_permissions) a)
