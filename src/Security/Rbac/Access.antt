-- ===== src/Security/Rbac/Access.antt =====
-- When a permission is granted.
use mathlib.Core.List.{Memᴰ}
use durable_integrations.Prelude.{
  ◌≡◌, refl, ◌↔◌, ◌⊎◌, inl, inr, true, Option, none, some, List, [], ◌++◌, arith, Option-cases, any,
  ap, ◌∙◌,
}
use durable_integrations.Prelude.Bytes.{
  Text, eqb_iff, cut_from, CutsAt, cut_from_complete, cut_from_sound, any_iff,
}
use durable_integrations.Prelude.Result.{Result, ok, err}
use durable_integrations.Security.Rbac.{
  Permission, Role, names, allows, RoleAssignment, Principal, AccessError, Roles, RoleStore, star,
  colon, grants, check_scopes, find_role, has_permission, role_grants, check_roles, ask,
  check_permission,
}

-- What a scope says: all, the resource and the action, any action on the resource, or the action on
-- any resource. Only the first colon of a scope divides it.
abbrev pub Grants : Text → Text → Text → Type 0
Grants resource action scope =
    (scope ≡ star)
    ⊎ (scope ≡ resource ++ colon ++ action)
    ⊎ (CutsAt b':' resource star scope)
    ⊎ (CutsAt b':' star action scope)

grants_sound :
    (resource action scope : Text)
    → grants resource action scope ≡ true
    → Grants resource action scope
unfolding grants
grants_sound resource action scope h = elim (Option-cases (cut_from b':' [] scope)) [
  | inl e ↦ ground (arith, eqb_iff scope star, eqb_iff scope (resource ++ colon ++ action))
  | inr ((front, back), e) ↦
      let (more, p, cuts) = cut_from_sound b':' [] scope front back e in
      ground (
        arith,
        eqb_iff scope star,
        eqb_iff scope (resource ++ colon ++ action),
        eqb_iff front resource,
        eqb_iff back star,
        eqb_iff front star,
        eqb_iff back action,
      )
]

grants_complete :
    (resource action scope : Text)
    → Grants resource action scope
    → grants resource action scope ≡ true
unfolding grants
grants_complete resource action scope (inl e) = ground (arith, eqb_iff scope star)
grants_complete resource action scope (inr (inl e)) =
    ground (arith, eqb_iff scope (resource ++ colon ++ action))
grants_complete resource action scope (inr (inr (inl (e, lacks)))) =
    let cut : cut_from b':' [] scope ≡ some (resource, star) =
      ap (cut_from b':' []) e ∙ cut_from_complete b':' [] resource star lacks in
    ground (arith, eqb_iff resource resource, eqb_iff star star)
grants_complete resource action scope (inr (inr (inr (e, lacks)))) =
    let cut : cut_from b':' [] scope ≡ some (star, action) =
      ap (cut_from b':' []) e ∙ cut_from_complete b':' [] star action lacks in
    ground (arith, eqb_iff action action, eqb_iff star star)

-- The role has the permission: some entry is for the resource, or for all, and lists the action, or
-- all.
abbrev pub Permits : Role → Text → Text → Type 0
Permits role resource action =
    (perm : Permission) × Memᴰ perm role.permissions
    × ((perm.resource ≡ resource) ⊎ (perm.resource ≡ star))
    × ((a : Text) × Memᴰ a perm.actions × ((a ≡ action) ⊎ (a ≡ star)))

names_iff :
    (pattern word : Text) → (names pattern word ≡ true) ↔ ((pattern ≡ word) ⊎ (pattern ≡ star))
names_iff pattern word = ground (arith, eqb_iff pattern word, eqb_iff pattern star)

allows_iff :
    (resource action : Text) (perm : Permission)
    → (allows resource action perm ≡ true) ↔ (
        ((perm.resource ≡ resource) ⊎ (perm.resource ≡ star))
        × ((a : Text) × Memᴰ a perm.actions × ((a ≡ action) ⊎ (a ≡ star))))
allows_iff resource action perm = (
  λ h.
      let (a, m, e) = (any_iff (λ a. names a action) perm.actions).0 (ground arith) in
      ((names_iff perm.resource resource).0 (ground arith), (a, m, (names_iff a action).0 e)),
  λ (p, (a, m, q)).
      let first = (names_iff perm.resource resource).1 p in
      let second =
        (any_iff (λ a. names a action) perm.actions).1 (a, m, (names_iff a action).1 q) in
      ground (arith, first, second),
)

pub has_permission_iff :
    (role : Role) (resource action : Text)
    → (has_permission role resource action ≡ true) ↔ Permits role resource action
has_permission_iff role resource action = (
  λ h.
      let (perm, m, e) = (any_iff (allows resource action) role.permissions).0 h in
      let (p, q) = (allows_iff resource action perm).0 e in (perm, m, p, q),
  λ (perm, m, p, q).
      (any_iff (allows resource action) role.permissions).1
        (perm, m, (allows_iff resource action perm).1 (p, q)),
)

role_grants_iff :
    (roles : Roles) (resource action : Text) (a : RoleAssignment)
    → (role_grants roles resource action a ≡ true)
      ↔ ((role : Role) × (find_role a.role_name roles ≡ some role) × Permits role resource action)
role_grants_iff roles resource action a = (
  λ h. elim (Option-cases (find_role a.role_name roles)) [
    | inl e ↦ cc
    | inr (role, e) ↦
        (role, e, (has_permission_iff role resource action).0 (rw (e, role_grants) at h))
  ],
  λ (role, e, p). rw (e, role_grants) ((has_permission_iff role resource action).1 p),
)

-- Access by a scope of the principal.
abbrev pub ByScope : Principal → Text → Text → Type 0
ByScope principal resource action =
    (scope : Text) × Memᴰ scope principal.scopes × Grants resource action scope

-- Access by an assignment, among those that the store returned, to a role that is defined.
abbrev pub ByRole : Roles → Text → Text → Option (Result AccessError (List RoleAssignment)) → Type 0
ByRole roles resource action answer =
    (assignments : List RoleAssignment) × (answer ≡ some (ok assignments))
    × ((a : RoleAssignment) × Memᴰ a assignments
        × ((role : Role) × (find_role a.role_name roles ≡ some role)
            × Permits role resource action))

check_scopes_iff :
    (principal : Principal) (resource action : Text)
    → (check_scopes principal resource action ≡ true) ↔ ByScope principal resource action
unfolding check_scopes
check_scopes_iff principal resource action = (
  λ h.
      let (scope, m, e) = (any_iff (grants resource action) principal.scopes).0 h in
      (scope, m, grants_sound resource action scope e),
  λ (scope, m, g).
      (any_iff (grants resource action) principal.scopes).1
        (scope, m, grants_complete resource action scope g),
)

check_roles_sound :
    (roles : Roles) (resource action : Text)
    (answer : Option (Result AccessError (List RoleAssignment)))
    → check_roles roles resource action answer ≡ ok tt
    → ByRole roles resource action answer
unfolding check_roles
check_roles_sound roles resource action none h = cc
check_roles_sound roles resource action (some (err e)) h = cc
check_roles_sound roles resource action (some (ok assignments)) h =
    let found : any (role_grants roles resource action) assignments ≡ true = ground arith in
    let (a, m, e) = (any_iff (role_grants roles resource action) assignments).0 found in
    (assignments, refl, (a, m, (role_grants_iff roles resource action a).0 e))

check_roles_complete :
    (roles : Roles) (resource action : Text)
    (answer : Option (Result AccessError (List RoleAssignment)))
    → ByRole roles resource action answer
    → check_roles roles resource action answer ≡ ok tt
unfolding check_roles
check_roles_complete roles resource action answer (assignments, e, (a, m, r)) =
    let found =
      (any_iff (role_grants roles resource action) assignments).1
        (a, m, (role_grants_iff roles resource action a).1 r) in
    rw (e, found) refl

module _ {ℓ} {S : Type ℓ} where
  -- A principal may do an action on a resource exactly if the context names no tenant or the
  -- principal's, and a scope of the principal says so, or a defined role that the role store assigns
  -- to the principal in its own tenant.
  pub check_permission_iff :
      (roles : Roles) (store : Option (RoleStore S)) (context_tenant : Text) (principal : Principal)
      (resource action : Text) (s : S)
      → (check_permission roles store context_tenant (some principal) resource action s ≡ ok tt) ↔ (
          ((context_tenant ≡ []) ⊎ (principal.tenant_id ≡ context_tenant))
          × (ByScope principal resource action
              ⊎ ByRole roles resource action (ask store principal s)))
  unfolding check_permission
  check_permission_iff roles store context_tenant principal resource action s =
      let answer = ask store principal s in
      let scopes = check_scopes_iff principal resource action in
      ground (
        arith,
        scopes,
        check_roles_sound roles resource action answer,
        check_roles_complete roles resource action answer,
        eqb_iff context_tenant [],
        eqb_iff principal.tenant_id context_tenant,
      )
