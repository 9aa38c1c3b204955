-- ===== src/Embedded/Lifecycle/Stored.antt =====
-- Each integration stays stored under its own id.
use text.Mathlib.Text.{◌==◌ as str_eq}
use durable_integrations.Prelude.{◌≡◌, refl, inl, inr, String, some, Bool-cases, Option-cases}
use durable_integrations.Prelude.Dict.{lookup, AllEntries, AllEntries-lookup, insert-AllEntries}
use durable_integrations.Embedded.Lifecycle.{
  is_deleted, Integration, Repository, get_by_id, create, update, delete, unless_deleted,
  create_integration, enable_integration, disable_integration, record_sync, set_error,
  update_config, Call, creates, enables, disables, deletes, records_sync, sets_error,
  updates_config, step, kept,
}

-- Each integration is stored under its own id.
abbrev pub IsStored : Repository → Type 0
IsStored r = AllEntries (λ key i. i.id ≡ key) r.integrations

update-IsStored : (i : Integration) (r : Repository) → IsStored r → IsStored (update i r)
unfolding update
update-IsStored i r v = insert-AllEntries (λ key j. j.id ≡ key) i.id i r.integrations v refl

create-IsStored : (i : Integration) (r : Repository) → IsStored r → IsStored (create i r)
unfolding create
create-IsStored i r v = insert-AllEntries (λ key j. j.id ≡ key) i.id i r.integrations v refl

unless_deleted-IsStored :
    (i : Integration) (r s : Repository)
    → IsStored r
    → IsStored s
    → IsStored (kept r (unless_deleted i s))
unless_deleted-IsStored i r s v w = elim (Bool-cases (is_deleted i.status)) [
  | inl e ↦ rw e v
  | inr e ↦ rw e w
]

pub step-IsStored : (c : Call) (r : Repository) → IsStored r → IsStored (step c r)
unfolding step create_integration enable_integration disable_integration delete record_sync
    set_error update_config get_by_id
step-IsStored (creates id now tenant config) r v = elim (Bool-cases (str_eq tenant "")) [
  | inl a ↦ rw a v
  | inr a ↦ elim (Bool-cases (str_eq config.connector_type "")) [
    | inl b ↦ rw (a, b) v
    | inr b ↦ rw (a, b) (create-IsStored _ r v)
  ]
]
step-IsStored (enables now id) r v = elim (Option-cases (lookup id r.integrations)) [
  | inl e ↦ rw e v
  | inr (i, e) ↦ rw e (unless_deleted-IsStored i r _ v (update-IsStored _ r v))
]
step-IsStored (disables now id) r v = elim (Option-cases (lookup id r.integrations)) [
  | inl e ↦ rw e v
  | inr (i, e) ↦ rw e (unless_deleted-IsStored i r _ v (update-IsStored _ r v))
]
step-IsStored (deletes now id) r v = elim (Option-cases (lookup id r.integrations)) [
  | inl e ↦ rw e v
  | inr (i, e) ↦ rw e (
      insert-AllEntries (λ key j. j.id ≡ key) id _ r.integrations v
        (AllEntries-lookup (λ key j. j.id ≡ key) id r.integrations v e))
]
step-IsStored (records_sync now id) r v = elim (Option-cases (lookup id r.integrations)) [
  | inl e ↦ rw e v
  | inr (i, e) ↦ rw e (update-IsStored _ r v)
]
step-IsStored (sets_error now id message) r v = elim (Option-cases (lookup id r.integrations)) [
  | inl e ↦ rw e v
  | inr (i, e) ↦ rw e (update-IsStored _ r v)
]
step-IsStored (updates_config now id config) r v = elim (Option-cases (lookup id r.integrations)) [
  | inl e ↦ rw e v
  | inr (i, e) ↦ rw e (unless_deleted-IsStored i r _ v (update-IsStored _ r v))
]

pub stored_id :
    (other : String) (i : Integration) (r : Repository)
    → IsStored r
    → lookup other r.integrations ≡ some i
    → i.id ≡ other
stored_id other i r v e = AllEntries-lookup (λ key j. j.id ≡ key) other r.integrations v e
