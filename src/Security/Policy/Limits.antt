-- ===== src/Security/Policy/Limits.antt =====
-- What the built-in roles do not allow.
use durable_integrations.Prelude.{
  ◌≡◌, refl, ◌⊎◌, inl, inr, true, some, [], ◌∷◌, arith, Bool-cases, subst,
}
use durable_integrations.Prelude.Bytes.{Text, bytes, eqb, eqb_iff}
use durable_integrations.Security.Rbac.{Role, Roles, find_role, has_permission}
use durable_integrations.Security.Policy.{
  default_policies, editor_role, viewer_role, connector_manager_role, sync_operator_role,
  read_action, tenant_resource, audit_log_resource,
}

-- Each role of a map.
abbrev EachRole : (Text → Role → Type 0) → Roles → Type 0
EachRole P [] = Unit
EachRole P ((name, role) ∷ rest) = P name role × EachRole P rest

EachRole-find_role :
    (P : Text → Role → Type 0) (roles : Roles) (name : Text) (role : Role)
    → EachRole P roles
    → find_role name roles ≡ some role
    → P name role
unfolding find_role
EachRole-find_role P [] name role all h = cc
EachRole-find_role P ((key, old) ∷ rest) name role all h = elim (Bool-cases (eqb name key)) [
  | inl e ↦
      let same : name ≡ key = (eqb_iff name key).0 e in
      let found : old ≡ role = ground arith in ground arith
  | inr e ↦ EachRole-find_role P rest name role all.1 (rw e at h)
]

-- Only an administrator may do more than read, on this resource.
abbrev AdminOrRead : Text → Text → Role → Type 0
AdminOrRead resource name role =
    (action : Text)
    → has_permission role resource action ≡ true
    → (name ≡ bytes "admin") ⊎ (action ≡ read_action)

tenants_AdminOrRead : EachRole (AdminOrRead tenant_resource) default_policies
unfolding default_policies editor_role viewer_role connector_manager_role sync_operator_role
tenants_AdminOrRead = (
  λ a e. inl refl,
  (λ a e. cc, (λ a e. ground (arith, eqb_iff read_action a), (λ a e. cc, (λ a e. cc, tt)))),
)

audits_AdminOrRead : EachRole (AdminOrRead audit_log_resource) default_policies
unfolding default_policies editor_role viewer_role connector_manager_role sync_operator_role
audits_AdminOrRead = (
  λ a e. inl refl,
  (λ a e. cc, (λ a e. ground (arith, eqb_iff read_action a), (λ a e. cc, (λ a e. cc, tt)))),
)

-- A built-in role that allows an action on tenants or on the audit log is the administrator's, or
-- the action is to read.
pub default_policies_limits :
    (name : Text) (role : Role) (resource action : Text)
    → find_role name default_policies ≡ some role
    → (resource ≡ tenant_resource) ⊎ (resource ≡ audit_log_resource)
    → has_permission role resource action ≡ true
    → (name ≡ bytes "admin") ⊎ (action ≡ read_action)
default_policies_limits name role resource action found (inl e) h =
    EachRole-find_role (AdminOrRead tenant_resource) default_policies name role tenants_AdminOrRead
      found action (subst (λ r. has_permission role r action ≡ true) e h)
default_policies_limits name role resource action found (inr e) h =
    EachRole-find_role (AdminOrRead audit_log_resource) default_policies name role
      audits_AdminOrRead found action (subst (λ r. has_permission role r action ≡ true) e h)
