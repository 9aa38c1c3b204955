-- ===== src/Embedded/Lifecycle.antt =====
-- internal/embedded/lifecycle/manager.go: the manager of integrations over the repository in memory. A
-- point in time is a number; the new id, which Go takes from a UUID, and the time of a call are
-- arguments. A call here is one step, and hands back a copy. (In Go
-- the record that CreateIntegration returns is the stored one, which its caller can change, and the calls
-- that look an integration up and then update it do not hold a lock in between.) The configuration is a
-- parameter, of which only the connector type is read.
pub mod Stored
pub mod Deleted
mod Samples
use text.Mathlib.Text.{◌==◌ as str_eq}
use durable_integrations.Prelude.{
  ℕ, suc, ◌+◌, String, Bool, true, false, not, ◌&&◌, Option, none, some, List, [], ◌∷◌, ◌++◌,
  if◌then◌else◌,
}
use durable_integrations.Prelude.Dict.{Dict, lookup, insert}
use durable_integrations.Prelude.Result.{Result, ok, err, ◌>>=◌}

pub data IntegrationStatus : Type 0 where
  created enabled disabled failed deleted : IntegrationStatus

abbrev pub is_deleted : IntegrationStatus → Bool
is_deleted IntegrationStatus.deleted = true
is_deleted _ = false

pub record IntegrationConfig : Type 0 where
  pub connector_type : String
  pub auth_config : String
  pub interval_minutes : ℕ

pub record Integration : Type 0 where
  pub id : String
  pub tenant_id : String
  pub connector_type : String
  pub config : IntegrationConfig
  pub status : IntegrationStatus
  pub error_message : String
  pub created_at : ℕ
  pub updated_at : ℕ
  pub enabled_at : Option ℕ
  pub last_sync_at : Option ℕ
  pub sync_count : ℕ

-- InMemoryRepository. A tenant that is missing from the index has no integrations.
pub record Repository : Type 0 where
  pub integrations : Dict Integration
  pub tenant_index : Dict (List String)

pub data LifecycleError : Type 0 where
  not_found is_gone tenant_required connector_required : LifecycleError

abbrev pub ids_or_empty : Option (List String) → List String
ids_or_empty none = []
ids_or_empty (some ids) = ids

abbrev pub ids_of : String → Repository → List String
ids_of tenant r = ids_or_empty (lookup tenant r.tenant_index)

abbrev pub found : Option Integration → Result LifecycleError Integration
found none = err LifecycleError.not_found
found (some i) = ok i

unfoldable pub get_by_id : String → Repository → Result LifecycleError Integration
get_by_id id r = found (lookup id r.integrations)

unfoldable pub create : Integration → Repository → Repository
create i r = record {
  integrations = insert i.id i r.integrations;
  tenant_index = insert i.tenant_id (ids_of i.tenant_id r ++ i.id ∷ []) r.tenant_index;
}

unfoldable pub update : Integration → Repository → Repository
update i r = record r { integrations = insert i.id i r.integrations }

-- Without the first occurrence.
unfoldable pub without : String → List String → List String
without id [] = []
without id (x ∷ xs) = let rest = without id xs in if str_eq x id then xs else x ∷ rest

unfoldable pub delete : ℕ → String → Repository → Result LifecycleError Repository
delete now id r = do
  i ← get_by_id id r
  ok (record {
    integrations =
        insert id (record i { status = IntegrationStatus.deleted; updated_at = now })
          r.integrations;
    tenant_index = insert i.tenant_id (without id (ids_of i.tenant_id r)) r.tenant_index;
  })

-- `i != nil && i.Status != StatusDeleted`
abbrev pub shown : Option Integration → List Integration
shown none = []
shown (some i) = if is_deleted i.status then [] else i ∷ []

unfoldable pub listed : Dict Integration → List String → List Integration
listed m [] = []
listed m (id ∷ ids) = shown (lookup id m) ++ listed m ids

unfoldable pub list_by_tenant : String → Repository → List Integration
list_by_tenant tenant r = listed r.integrations (ids_of tenant r)

-- The guard of the calls that a deleted integration refuses.
abbrev pub unless_deleted : Integration → Repository → Result LifecycleError Repository
unless_deleted i r = if is_deleted i.status then err LifecycleError.is_gone else ok r

unfoldable pub create_integration :
    String → ℕ → String → IntegrationConfig → Repository → Result LifecycleError Repository
create_integration id now tenant config r =
    if str_eq tenant ""
    then err LifecycleError.tenant_required
    else if str_eq config.connector_type ""
    then err LifecycleError.connector_required
    else ok (
        create
          (record {
            id = id;
            tenant_id = tenant;
            connector_type = config.connector_type;
            config = config;
            status = IntegrationStatus.created;
            error_message = "";
            created_at = now;
            updated_at = now;
            enabled_at = none;
            last_sync_at = none;
            sync_count = 0;
          })
          r)

unfoldable pub enable_integration : ℕ → String → Repository → Result LifecycleError Repository
enable_integration now id r = do
  i ← get_by_id id r
  unless_deleted i (
      update
        (record i {
          status = IntegrationStatus.enabled;
          updated_at = now;
          enabled_at = some now;
          error_message = "";
        })
        r)

unfoldable pub disable_integration : ℕ → String → Repository → Result LifecycleError Repository
disable_integration now id r = do
  i ← get_by_id id r
  unless_deleted i (update (record i { status = IntegrationStatus.disabled; updated_at = now }) r)

unfoldable pub record_sync : ℕ → String → Repository → Result LifecycleError Repository
record_sync now id r = do
  i ← get_by_id id r
  ok (
      update (record i { last_sync_at = some now; sync_count = i.sync_count + 1; updated_at = now })
        r)

unfoldable pub set_error : ℕ → String → String → Repository → Result LifecycleError Repository
set_error now id message r = do
  i ← get_by_id id r
  ok (
      update
        (record i { status = IntegrationStatus.failed; error_message = message; updated_at = now })
        r)

unfoldable pub update_config :
    ℕ → String → IntegrationConfig → Repository → Result LifecycleError Repository
update_config now id config r = do
  i ← get_by_id id r
  unless_deleted i (update (record i { config = config; updated_at = now }) r)

pub data Call : Type 0 where
  creates : String → ℕ → String → IntegrationConfig → Call
  enables disables deletes records_sync : ℕ → String → Call
  sets_error : ℕ → String → String → Call
  updates_config : ℕ → String → IntegrationConfig → Call

-- A call that fails leaves the repository as it was.
abbrev pub kept : Repository → Result LifecycleError Repository → Repository
kept r (ok r') = r'
kept r (err e) = r

unfoldable pub step : Call → Repository → Repository
step (creates id now tenant config) r = kept r (create_integration id now tenant config r)
step (enables now id) r = kept r (enable_integration now id r)
step (disables now id) r = kept r (disable_integration now id r)
step (deletes now id) r = kept r (delete now id r)
step (records_sync now id) r = kept r (record_sync now id r)
step (sets_error now id message) r = kept r (set_error now id message r)
step (updates_config now id config) r = kept r (update_config now id config r)

unfoldable pub run : List Call → Repository → Repository
run [] r = r
run (c ∷ cs) r = run cs (step c r)
