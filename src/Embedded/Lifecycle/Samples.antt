-- ===== src/Embedded/Lifecycle/Samples.antt =====
-- One deleted integration, and the theorems there.
use durable_integrations.Prelude.{refl, none, some, List, [], ◌∷◌}
use durable_integrations.Prelude.Dict.{lookup}
use durable_integrations.Embedded.Lifecycle.{
  IntegrationStatus, IntegrationConfig, Integration, Repository, Call, creates, enables,
  records_sync, updates_config, deletes, run,
}
use durable_integrations.Embedded.Lifecycle.Deleted.{IsDeleted, run-IsDeleted}

abbrev crm : IntegrationConfig
crm = record { connector_type = "hubspot"; auth_config = "{}"; interval_minutes = 15 }

abbrev removed : Integration
removed = record {
  id = "i1";
  tenant_id = "acme";
  connector_type = "hubspot";
  config = crm;
  status = IntegrationStatus.deleted;
  error_message = "";
  created_at = 1;
  updated_at = 5;
  enabled_at = some 2;
  last_sync_at = none;
  sync_count = 0;
}

abbrev repository : Repository
repository = record { integrations = ("i1", removed) ∷ []; tenant_index = ("acme", []) ∷ [] }

abbrev history : List Call
history =
    creates "i2" 6 "acme" crm
    ∷ enables 7 "i1"
    ∷ records_sync 8 "i1"
    ∷ updates_config 9 "i1" crm
    ∷ enables 10 "i2"
    ∷ deletes 11 "i2"
    ∷ []

removed_IsDeleted : IsDeleted "i1" repository
unfolding lookup
removed_IsDeleted = (removed, refl, refl)

run-IsDeleted_example : IsDeleted "i1" (run history repository)
run-IsDeleted_example =
    run-IsDeleted "i1" history repository (refl, (tt, (tt, (tt, (tt, (tt, tt)))))) (refl, tt)
      removed_IsDeleted
