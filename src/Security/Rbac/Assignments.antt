-- ===== src/Security/Rbac/Assignments.antt =====
-- The role store in memory against the set of its assignments.
use durable_integrations.Prelude.{
  ◌≡◌, refl, ◌∙◌, ap, inl, inr, Bool, true, false, not, ◌&&◌, ◌||◌, List, [], ◌∷◌, ◌++◌, arith,
  Bool-cases, any, any-append, keep,
}
use durable_integrations.Prelude.Bytes.{Text, eqb, eqb_iff}
use durable_integrations.Prelude.Result.{Result, ok, err}
use durable_integrations.Security.Rbac.{
  RoleAssignment, AccessError, Assignments, same, add_assignment, drop_assignment, assignments_of,
}

-- `a` is assigned.
abbrev pub holds : RoleAssignment → Assignments → Bool
holds a s = any (λ b. same b a) s

same_iff : (a b c : RoleAssignment) → same a b ≡ true → same a c ≡ same b c
same_iff a b c h =
    let p = (eqb_iff a.principal_id b.principal_id).0 in
    let q = (eqb_iff a.tenant_id b.tenant_id).0 in
    let r = (eqb_iff a.role_name b.role_name).0 in ground (arith, p, q, r)

eqb_sym : (a b : Text) → eqb a b ≡ eqb b a
eqb_sym a b = ground (arith, eqb_iff a b, eqb_iff b a)

same_sym : (a b : RoleAssignment) → same a b ≡ same b a
same_sym a b = ground (
  arith,
  eqb_sym a.principal_id b.principal_id,
  eqb_sym a.tenant_id b.tenant_id,
  eqb_sym a.role_name b.role_name,
)

holds-congr : (a b : RoleAssignment) (s : Assignments) → same a b ≡ true → holds a s ≡ holds b s
holds-congr a b [] h = refl
holds-congr a b (c ∷ s) h =
    ground (arith, holds-congr a b s h, same_iff a b c h, same_sym a c, same_sym b c)

holds-add :
    (a b : RoleAssignment) (s : Assignments)
    → holds b (add_assignment a s) ≡ (same a b || holds b s)
unfolding add_assignment
holds-add a b s = ground (arith, any-append (λ c. same c b) s (a ∷ []), holds-congr a b s)

holds-keep :
    (a b : RoleAssignment) (s : Assignments)
    → holds b (keep (λ c. not (same c a)) s) ≡ (not (same a b) && holds b s)
unfolding keep
holds-keep a b [] = ground arith
holds-keep a b (c ∷ s) = ground (
  arith,
  holds-keep a b s,
  same_iff c a b,
  same_iff a b c,
  same_sym a c,
  same_sym b c,
  same_iff c b a,
  same_sym a b,
)

holds-assignments_of :
    (principal tenant : Text) (b : RoleAssignment) (s : Assignments)
    → holds b (assignments_of principal tenant s)
      ≡ (eqb b.principal_id principal && eqb b.tenant_id tenant && holds b s)
unfolding assignments_of keep
holds-assignments_of principal tenant b [] = ground arith
holds-assignments_of principal tenant b (c ∷ s) = ground (
  arith,
  holds-assignments_of principal tenant b s,
  eqb_iff c.principal_id b.principal_id,
  eqb_iff c.tenant_id b.tenant_id,
)

pub data Change : Type 0 where
  assigns revokes : RoleAssignment → Change

-- A revocation that finds nothing leaves the store as it was.
abbrev kept : Assignments → Result AccessError Assignments → Assignments
kept s (ok s') = s'
kept s (err e) = s

abbrev pub step : Change → Assignments → Assignments
step (assigns a) s = add_assignment a s
step (revokes a) s = kept s (drop_assignment a s)

abbrev pub run : List Change → Assignments → Assignments
run [] s = s
run (c ∷ cs) s = run cs (step c s)

-- Whether `b` is assigned after the changes: the last one that is about it decides.
abbrev pub replay : RoleAssignment → List Change → Bool → Bool
replay b [] h = h
replay b (assigns a ∷ cs) h = replay b cs (same a b || h)
replay b (revokes a ∷ cs) h = replay b cs (not (same a b) && h)

holds-drop :
    (a b : RoleAssignment) (s : Assignments)
    → holds b (kept s (drop_assignment a s)) ≡ (not (same a b) && holds b s)
unfolding drop_assignment
holds-drop a b s = ground (arith, holds-keep a b s, holds-congr a b s)

holds-run :
    (b : RoleAssignment) (cs : List Change) (s : Assignments)
    → holds b (run cs s) ≡ replay b cs (holds b s)
holds-run b [] s = refl
holds-run b (assigns a ∷ cs) s =
    holds-run b cs (add_assignment a s) ∙ ap (replay b cs) (holds-add a b s)
holds-run b (revokes a ∷ cs) s =
    holds-run b cs (kept s (drop_assignment a s)) ∙ ap (replay b cs) (holds-drop a b s)

-- After any changes, the store returns an assignment for a principal and a tenant exactly if it is of
-- both and the last change about it assigned it, or none was about it and it was there before.
pub assignments_of-run :
    (cs : List Change) (s : Assignments) (principal tenant : Text) (b : RoleAssignment)
    → holds b (assignments_of principal tenant (run cs s))
      ≡ (eqb b.principal_id principal && eqb b.tenant_id tenant && replay b cs (holds b s))
assignments_of-run cs s principal tenant b =
    holds-assignments_of principal tenant b (run cs s)
    ∙ ap (λ h. eqb b.principal_id principal && eqb b.tenant_id tenant && h) (holds-run b cs s)

-- No assignment stands twice.
abbrev pub AreDistinct : Assignments → Type 0
AreDistinct [] = Unit
AreDistinct (a ∷ s) = (holds a s ≡ false) × AreDistinct s

add-AreDistinct :
    (a : RoleAssignment) (s : Assignments)
    → holds a s ≡ false
    → AreDistinct s
    → AreDistinct (s ++ a ∷ [])
add-AreDistinct a [] h d = (refl, tt)
add-AreDistinct a (b ∷ s) h d = (
  ground (arith, any-append (λ c. same c b) s (a ∷ []), same_sym a b),
  add-AreDistinct a s (ground arith) d.1,
)

keep-AreDistinct :
    (a : RoleAssignment) (s : Assignments)
    → AreDistinct s
    → AreDistinct (keep (λ c. not (same c a)) s)
unfolding keep
keep-AreDistinct a [] d = tt
keep-AreDistinct a (b ∷ s) d =
    let below = keep-AreDistinct a s d.1 in ground (arith, below, holds-keep a b s)

step-AreDistinct : (c : Change) (s : Assignments) → AreDistinct s → AreDistinct (step c s)
unfolding add_assignment drop_assignment
step-AreDistinct (assigns a) s d = elim (Bool-cases (holds a s)) [
  | inl e ↦ rw e d
  | inr e ↦ rw e (add-AreDistinct a s e d)
]
step-AreDistinct (revokes a) s d = elim (Bool-cases (holds a s)) [
  | inl e ↦ rw e (keep-AreDistinct a s d)
  | inr e ↦ rw e d
]

-- From a store in which no assignment stands twice, whatever the changes: none does.
pub run-AreDistinct : (cs : List Change) (s : Assignments) → AreDistinct s → AreDistinct (run cs s)
run-AreDistinct [] s d = d
run-AreDistinct (c ∷ cs) s d = run-AreDistinct cs (step c s) (step-AreDistinct c s d)
