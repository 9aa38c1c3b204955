-- ===== src/Security/Samples.antt =====
-- Two principals of one tenant, and the theorems there.
use mathlib.Core.List.{Memᴰ}
use durable_integrations.Prelude.{◌≡◌, refl, inl, inr, false, ◌&&◌, some, List, [], ◌∷◌}
use durable_integrations.Prelude.Bytes.{bytes, eqb}
use durable_integrations.Prelude.Result.{ok}
use durable_integrations.Security.Rbac.{
  RoleAssignment, Principal, in_memory, check_permission, assignments_of,
}
use durable_integrations.Security.Rbac.Access.{check_permission_iff}
use durable_integrations.Security.Rbac.Assignments.{
  holds, Change, assigns, revokes, run, replay, assignments_of-run,
}
use durable_integrations.Security.Policy.{default_policies, sync_resource, execute_action}

abbrev alice : Principal
alice = record { id = bytes "alice"; tenant_id = bytes "acme"; scopes = bytes "sync:*" ∷ [] }

abbrev alice_views : RoleAssignment
alice_views = record {
  principal_id = bytes "alice";
  tenant_id = bytes "acme";
  role_name = bytes "viewer";
}

abbrev bob_edits : RoleAssignment
bob_edits = record {
  principal_id = bytes "bob";
  tenant_id = bytes "acme";
  role_name = bytes "editor";
}

abbrev changes : List Change
changes = assigns alice_views ∷ assigns bob_edits ∷ revokes alice_views ∷ assigns alice_views ∷ []

check_permission_iff_example :
    check_permission default_policies
      (some in_memory)
      (bytes "acme")
      (some alice)
      sync_resource
      execute_action
      (alice_views ∷ [])
    ≡ ok tt
check_permission_iff_example =
    (check_permission_iff default_policies (some in_memory) (bytes "acme") alice sync_resource
        execute_action (alice_views ∷ [])).1
      (inr refl, inl (bytes "sync:*", Memᴰ.head refl, inr (inr (inl (refl, refl)))))

assignments_of-run_example :
    holds alice_views (assignments_of (bytes "alice") (bytes "acme") (run changes [])) ≡ (
      eqb (bytes "alice") (bytes "alice")
      && eqb (bytes "acme") (bytes "acme")
      && replay alice_views changes false)
assignments_of-run_example =
    assignments_of-run changes [] (bytes "alice") (bytes "acme") alice_views
