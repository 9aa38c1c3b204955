-- ===== src/Embedded/Lifecycle/Deleted.antt =====
-- A deleted integration stays deleted, as far as it does.
use text.Mathlib.Text.{◌==◌ as str_eq}
use text.Mathlib.TextEquality.{eq_iff}
use durable_integrations.Prelude.{
  ◌≡◌, refl, sym, ◌∙◌, subst, inl, inr, String, true, false, some, List, [], ◌∷◌, Bool-cases,
  Option-cases,
}
use durable_integrations.Prelude.Dict.{Dict, lookup, insert, lookup-insert}
use durable_integrations.Embedded.Lifecycle.{
  is_deleted, Integration, Repository, get_by_id, create, update, delete, unless_deleted,
  create_integration, enable_integration, disable_integration, record_sync, set_error,
  update_config, Call, creates, enables, disables, deletes, records_sync, sets_error,
  updates_config, step, run, kept,
}
use durable_integrations.Embedded.Lifecycle.Stored.{IsStored, step-IsStored, stored_id}

-- There is an integration under this id, and it is deleted.
abbrev pub IsDeleted : String → Repository → Type 0
IsDeleted id r =
    (i : Integration) × (lookup id r.integrations ≡ some i) × (is_deleted i.status ≡ true)

-- The call reports no error of this integration and does not create it again.
abbrev pub Spares : String → Call → Type 0
Spares id (sets_error now other message) = str_eq other id ≡ false
Spares id (creates other now tenant config) = str_eq other id ≡ false
Spares id _ = Unit

insert_other :
    (id : String) (i : Integration) (r : Repository) (m : Dict (List String))
    → str_eq i.id id ≡ false
    → IsDeleted id r
    → IsDeleted id (record { integrations = insert i.id i r.integrations; tenant_index = m })
insert_other id i r m e (old, at, gone) =
    (old, rw (lookup-insert i.id id i r.integrations, e) at, gone)

insert_marked :
    (id key : String) (i : Integration) (r : Repository) (m : Dict (List String))
    → is_deleted i.status ≡ true
    → IsDeleted id r
    → IsDeleted id (record { integrations = insert key i r.integrations; tenant_index = m })
insert_marked id key i r m d (old, at, gone) = elim (Bool-cases (str_eq key id)) [
  | inl e ↦ (i, rw (lookup-insert key id i r.integrations, e) refl, d)
  | inr e ↦ (old, rw (lookup-insert key id i r.integrations, e) at, gone)
]

-- An integration that is not deleted is another one.
alive_is_other :
    (id other : String) (i : Integration) (r : Repository)
    → IsStored r
    → IsDeleted id r
    → lookup other r.integrations ≡ some i
    → is_deleted i.status ≡ false
    → str_eq i.id id ≡ false
alive_is_other id other i r v (old, at, gone) e alive = elim (Bool-cases (str_eq i.id id)) [
  | inr ne ↦ ne
  | inl same ↦
      let here : other ≡ id = sym (stored_id other i r v e) ∙ (eq_iff i.id id).0 same in
      let both : some i ≡ some old =
        sym e ∙ subst (λ k. lookup k r.integrations ≡ some old) (sym here) at in
      cc
]

unless_deleted-IsDeleted :
    (id other : String) (i j : Integration) (r : Repository)
    → IsStored r
    → IsDeleted id r
    → lookup other r.integrations ≡ some i
    → j.id ≡ i.id
    → IsDeleted id (kept r (unless_deleted i (update j r)))
unfolding update
unless_deleted-IsDeleted id other i j r v d e same = elim (Bool-cases (is_deleted i.status)) [
  | inl a ↦ rw a d
  | inr a ↦ rw a (
      insert_other id j r r.tenant_index
        (subst (λ k. str_eq k id ≡ false) (sym same) (alive_is_other id other i r v d e a)) d)
]

step-IsDeleted :
    (id : String) (c : Call) (r : Repository)
    → Spares id c
    → IsStored r
    → IsDeleted id r
    → IsDeleted id (step c r)
unfolding step create_integration enable_integration disable_integration delete record_sync
    set_error update_config get_by_id create update
step-IsDeleted id (creates other now tenant config) r h v d = elim (Bool-cases (str_eq tenant "")) [
  | inl a ↦ rw a d
  | inr a ↦ elim (Bool-cases (str_eq config.connector_type "")) [
    | inl b ↦ rw (a, b) d
    | inr b ↦ rw (a, b) (insert_other id _ r r.tenant_index h d)
  ]
]
step-IsDeleted id (enables now other) r h v d = elim (Option-cases (lookup other r.integrations)) [
  | inl e ↦ rw e d
  | inr (i, e) ↦ rw e (unless_deleted-IsDeleted id other i _ r v d e refl)
]
step-IsDeleted id (disables now other) r h v d = elim (Option-cases (lookup other r.integrations)) [
  | inl e ↦ rw e d
  | inr (i, e) ↦ rw e (unless_deleted-IsDeleted id other i _ r v d e refl)
]
step-IsDeleted id (deletes now other) r h v d = elim (Option-cases (lookup other r.integrations)) [
  | inl e ↦ rw e d
  | inr (i, e) ↦ rw e (insert_marked id other _ r r.tenant_index refl d)
]
step-IsDeleted id (records_sync now other) r h v d =
    elim (Option-cases (lookup other r.integrations)) [
      | inl e ↦ rw e d
      | inr (i, e) ↦ rw e (elim (Bool-cases (is_deleted i.status)) [
        | inl a ↦ insert_marked id i.id _ r r.tenant_index a d
        | inr a ↦ insert_other id _ r r.tenant_index (alive_is_other id other i r v d e a) d
      ])
    ]
step-IsDeleted id (sets_error now other message) r h v d =
    elim (Option-cases (lookup other r.integrations)) [
      | inl e ↦ rw e d
      | inr (i, e) ↦ rw e (
          insert_other id _ r r.tenant_index
            (subst (λ k. str_eq k id ≡ false) (sym (stored_id other i r v e)) h) d)
    ]
step-IsDeleted id (updates_config now other config) r h v d =
    elim (Option-cases (lookup other r.integrations)) [
      | inl e ↦ rw e d
      | inr (i, e) ↦ rw e (unless_deleted-IsDeleted id other i _ r v d e refl)
    ]

abbrev pub AllSpare : String → List Call → Type 0
AllSpare id [] = Unit
AllSpare id (c ∷ cs) = Spares id c × AllSpare id cs

-- From a repository in which each integration is stored under its own id: a deleted integration stays
-- deleted, whatever the calls, as long as none reports an error of it and none creates its id again.
pub run-IsDeleted :
    (id : String) (cs : List Call) (r : Repository)
    → AllSpare id cs
    → IsStored r
    → IsDeleted id r
    → IsDeleted id (run cs r)
unfolding run
run-IsDeleted id [] r h v d = d
run-IsDeleted id (c ∷ cs) r h v d =
    run-IsDeleted id cs (step c r) h.1 (step-IsStored c r v) (step-IsDeleted id c r h.0 v d)
