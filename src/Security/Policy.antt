-- ===== src/Security/Policy.antt =====
-- internal/security/rbac/policy.go: the built-in roles.
pub mod Limits
use durable_integrations.Prelude.{List, [], ◌∷◌, ◌++◌}
use durable_integrations.Prelude.Bytes.{Text, bytes}
use durable_integrations.Security.Rbac.{Permission, Role, Roles, star}

abbrev pub create_action : Text
create_action = bytes "create"

abbrev pub read_action : Text
read_action = bytes "read"

abbrev pub update_action : Text
update_action = bytes "update"

abbrev pub delete_action : Text
delete_action = bytes "delete"

abbrev pub execute_action : Text
execute_action = bytes "execute"

abbrev pub manage_action : Text
manage_action = bytes "manage"

abbrev pub connector_resource : Text
connector_resource = bytes "connector"

abbrev pub connection_resource : Text
connection_resource = bytes "connection"

abbrev pub sync_resource : Text
sync_resource = bytes "sync"

abbrev pub tenant_resource : Text
tenant_resource = bytes "tenant"

abbrev pub schema_resource : Text
schema_resource = bytes "schema"

abbrev pub mcp_server_resource : Text
mcp_server_resource = bytes "mcp_server"

abbrev pub audit_log_resource : Text
audit_log_resource = bytes "audit_log"

abbrev pub all_actions : List Text
all_actions =
    create_action ∷ read_action ∷ update_action ∷ delete_action ∷ execute_action ∷ manage_action
    ∷ []

abbrev pub read_only : List Text
read_only = read_action ∷ []

abbrev pub crud_actions : List Text
crud_actions = create_action ∷ read_action ∷ update_action ∷ delete_action ∷ []

abbrev on : Text → List Text → Permission
on resource actions = record { resource = resource; actions = actions }

unfoldable pub admin_role : Role
admin_role = record {
  name = bytes "admin";
  description = bytes "Full administrative access to all resources and actions";
  permissions = on star (star ∷ []) ∷ [];
}

unfoldable pub editor_role : Role
editor_role = record {
  name = bytes "editor";
  description =
      bytes
        "Create, read, update, and delete connectors, connections, syncs, schemas, and MCP servers";
  permissions =
      on connector_resource crud_actions
      ∷ on connection_resource crud_actions
      ∷ on sync_resource (crud_actions ++ execute_action ∷ [])
      ∷ on schema_resource crud_actions
      ∷ on mcp_server_resource crud_actions
      ∷ [];
}

unfoldable pub viewer_role : Role
viewer_role = record {
  name = bytes "viewer";
  description = bytes "Read-only access to all resources";
  permissions =
      on connector_resource read_only
      ∷ on connection_resource read_only
      ∷ on sync_resource read_only
      ∷ on tenant_resource read_only
      ∷ on schema_resource read_only
      ∷ on mcp_server_resource read_only
      ∷ on audit_log_resource read_only
      ∷ [];
}

unfoldable pub connector_manager_role : Role
connector_manager_role = record {
  name = bytes "connector_manager";
  description = bytes "Manage connectors and connections with full lifecycle control";
  permissions =
      on connector_resource all_actions
      ∷ on connection_resource all_actions
      ∷ on schema_resource read_only
      ∷ [];
}

unfoldable pub sync_operator_role : Role
sync_operator_role = record {
  name = bytes "sync_operator";
  description = bytes "Manage and execute syncs, view connectors and connections";
  permissions =
      on sync_resource all_actions
      ∷ on connector_resource read_only
      ∷ on connection_resource read_only
      ∷ on schema_resource read_only
      ∷ [];
}

unfoldable pub default_policies : Roles
default_policies =
    (bytes "admin", admin_role)
    ∷ (bytes "editor", editor_role)
    ∷ (bytes "viewer", viewer_role)
    ∷ (bytes "connector_manager", connector_manager_role)
    ∷ (bytes "sync_operator", sync_operator_role)
    ∷ []
