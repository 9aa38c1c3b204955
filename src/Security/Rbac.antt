-- ===== src/Security/Rbac.antt =====
-- internal/security/rbac/rbac.go: roles, their assignments, and the check of a permission. Strings
-- are their bytes. The role store is an interface over a state of its own; the one in memory is here,
-- as the list of its assignments.
pub mod Access
pub mod Assignments
use durable_integrations.Prelude.{
  Bool, true, false, not, ◌&&◌, ◌||◌, Option, none, some, List, [], ◌∷◌, ◌++◌, if◌then◌else◌, any,
  keep,
}
use durable_integrations.Prelude.Bytes.{Text, bytes, eqb, cut_from}
use durable_integrations.Prelude.Result.{Result, ok, err}

pub record Permission : Type 0 where
  pub resource : Text
  pub actions : List Text

pub record Role : Type 0 where
  pub name : Text
  pub description : Text
  pub permissions : List Permission

pub record RoleAssignment : Type 0 where
  pub principal_id : Text
  pub tenant_id : Text
  pub role_name : Text

-- The fields of auth.Principal that the check reads.
pub record Principal : Type 0 where
  pub id : Text
  pub tenant_id : Text
  pub scopes : List Text

pub data AccessError : Type 0 where
  unauthorized tenant_mismatch forbidden unknown_role not_found : AccessError
  store_failed : Text → AccessError

-- `"*"`
abbrev pub star : Text
star = b'*' ∷ []

-- `":"`
abbrev pub colon : Text
colon = b':' ∷ []

abbrev pub names : Text → Text → Bool
names pattern word = eqb pattern word || eqb pattern star

abbrev pub allows : Text → Text → Permission → Bool
allows resource action perm = names perm.resource resource && any (λ a. names a action) perm.actions

abbrev pub has_permission : Role → Text → Text → Bool
has_permission role resource action = any (allows resource action) role.permissions

-- The map of roles by name.
abbrev pub Roles : Type 0
Roles = List (Text × Role)

unfoldable pub find_role : Text → Roles → Option Role
find_role name [] = none
find_role name ((key, role) ∷ rest) = if eqb name key then some role else find_role name rest

-- RoleStore
pub record RoleStore {ℓ} (S : Type ℓ) : Type ℓ where
  pub get_role_assignments : Text → Text → S → Result AccessError (List RoleAssignment)
  pub assign_role : RoleAssignment → S → Result AccessError S
  pub revoke_role : Text → Text → Text → S → Result AccessError S

abbrev pub same : RoleAssignment → RoleAssignment → Bool
same a b =
    eqb a.principal_id b.principal_id && eqb a.tenant_id b.tenant_id && eqb a.role_name b.role_name

-- InMemoryRoleStore
abbrev pub Assignments : Type 0
Assignments = List RoleAssignment

unfoldable pub assignments_of : Text → Text → Assignments → Assignments
assignments_of principal tenant s =
    keep (λ a. eqb a.principal_id principal && eqb a.tenant_id tenant) s

unfoldable pub add_assignment : RoleAssignment → Assignments → Assignments
add_assignment assignment s = if any (λ a. same a assignment) s then s else s ++ assignment ∷ []

-- If nothing is dropped, the store keeps what it has.
unfoldable pub drop_assignment : RoleAssignment → Assignments → Result AccessError Assignments
drop_assignment assignment s =
    let filtered = keep (λ a. not (same a assignment)) s in
    if any (λ a. same a assignment) s then ok filtered else err AccessError.not_found

unfoldable pub in_memory : RoleStore Assignments
in_memory = record {
  get_role_assignments = λ principal tenant s. ok (assignments_of principal tenant s);
  assign_role = λ assignment s. ok (add_assignment assignment s);
  revoke_role = λ principal tenant name s.
      drop_assignment (record { principal_id = principal; tenant_id = tenant; role_name = name }) s;
}

-- One scope against the request.
unfoldable pub grants : Text → Text → Text → Bool
grants resource action scope =
    eqb scope star || eqb scope (resource ++ colon ++ action) || elim (cut_from b':' [] scope) [
      | none ↦ false
      | some (front, back) ↦
          (eqb front resource && eqb back star) || (eqb front star && eqb back action)
    ]

unfoldable pub check_scopes : Principal → Text → Text → Bool
check_scopes principal resource action = any (grants resource action) principal.scopes

-- The role of an assignment, if it is defined, has the permission.
abbrev pub role_grants : Roles → Text → Text → RoleAssignment → Bool
role_grants roles resource action assignment = elim (find_role assignment.role_name roles) [
  | none ↦ false
  | some role ↦ has_permission role resource action
]

abbrev pub Decision : Type 0
Decision = Result {0, 0} AccessError Unit

-- The second half of CheckPermission, with what the role store returned; none if there is no store.
check_roles : Roles → Text → Text → Option (Result AccessError (List RoleAssignment)) → Decision
check_roles roles resource action none = err AccessError.forbidden
check_roles roles resource action (some (err e)) = err e
check_roles roles resource action (some (ok assignments)) =
    if any (role_grants roles resource action) assignments then ok tt else err AccessError.forbidden

-- The tenant of the context, if there is one, is another than the principal's.
abbrev pub mismatch : Text → Principal → Bool
mismatch context_tenant principal =
    not (eqb context_tenant []) && not (eqb principal.tenant_id context_tenant)

module _ {ℓ} {S : Type ℓ} where
  pub ask : Option (RoleStore S) → Principal → S → Option (Result AccessError (List RoleAssignment))
  ask none principal s = none
  ask (some store) principal s =
      some (store.get_role_assignments principal.id principal.tenant_id s)

  pub check_permission :
      Roles → Option (RoleStore S) → Text → Option Principal → Text → Text → S → Decision
  unfolding check_roles ask
  check_permission roles store context_tenant none resource action s = err AccessError.unauthorized
  check_permission roles store context_tenant (some principal) resource action s =
      if mismatch context_tenant principal
      then err AccessError.tenant_mismatch
      else if check_scopes principal resource action
      then ok tt
      else check_roles roles resource action (ask store principal s)

  -- AssignRole of the service.
  pub assign_role : Roles → RoleStore S → RoleAssignment → S → Result AccessError S
  assign_role roles store assignment s = elim (find_role assignment.role_name roles) [
    | none ↦ err AccessError.unknown_role
    | some role ↦ store.assign_role assignment s
  ]
