-- ===== src/Sync/Activities/Coercion/Typing.antt =====
-- The fields of a record after CoerceTypesActivity, and the complaints about it.
use durable_integrations.Prelude.{
  ℕ, Bool, true, false, ◌&&◌, Option, none, some, List, [], ◌∷◌, ◌≡◌, refl, arith, sym, ◌∙◌, ap,
  if◌then◌else◌, Option-cases, Bool-cases, inl, inr, any, any-append, ◌⊎◌, subst,
}
use durable_integrations.Prelude.Bytes.{Text, eqb, eqb_iff}
use durable_integrations.Mapping.Expression.Syntax.{Value, Fields, get_field}
use durable_integrations.Sync.Activities.{
  FieldMapping, Failure, coercion_failed, Libraries, get_field-put_field,
}
use durable_integrations.Sync.Activities.Coercion.{
  coerce_value, coercions_from, present, coerce_field, coerce_fields,
}
use durable_integrations.Sync.Activities.Coercion.Names.{IsNamed, is_among, fallible_names}
use durable_integrations.Sync.Activities.Coercion.Lookup.{
  find_coercion, HasOneEach, find_coercion-coercions_from, coercions_from-HasOneEach, last_type,
}
use durable_integrations.Sync.Activities.Coercion.Conversions.{
  is_scalar, coerce_value-IsNamed, coerce_value_fails, coerce_value_scalar,
}

-- The complaint is that the field could not be coerced.
abbrev pub is_about : Text → Failure → Bool
is_about key (coercion_failed i name) = eqb key name
is_about key failure = false

module _ {ℓ} {F : Type ℓ} (lib : Libraries F) where
  -- A value under a coercion: null and what cannot be coerced stay.
  abbrev coerced : Option Text → Option (Value F) → Option (Value F)
  coerced none v = v
  coerced (some target) v = elim (present v) [
    | none ↦ v
    | some old ↦ elim (coerce_value lib target old) [ none ↦ v | some new ↦ some new ]
  ]

  -- Whether there is a complaint.
  abbrev complains : Option Text → Option (Value F) → Bool
  complains none v = false
  complains (some target) v = elim (present v) [
    | none ↦ false
    | some old ↦ elim (coerce_value lib target old) [ none ↦ true | some new ↦ false ]
  ]

  get_field-coerce_field :
      (i : ℕ) (name target key : Text) (fields : Fields F)
      → get_field key (coerce_field lib i (name, target) fields).0 ≡ (
          if eqb key name
          then coerced (some target) (get_field name fields)
          else get_field key fields)
  unfolding coerce_field
  get_field-coerce_field i name target key fields =
      elim (Option-cases (present (get_field name fields))) [
        | inl e ↦ rw (e, get_field) (ground (arith, eqb_iff key name))
        | inr (old, e) ↦ elim (Option-cases (coerce_value lib target old)) [
          | inl f ↦ rw (e, f, get_field) (ground (arith, eqb_iff key name))
          | inr (new, f) ↦
              rw (e, f, get_field) (ground (arith, get_field-put_field name key new fields))
        ]
      ]

  any-coerce_field :
      (i : ℕ) (name target key : Text) (fields : Fields F)
      → any (is_about key) (coerce_field lib i (name, target) fields).1
        ≡ (eqb key name && complains (some target) (get_field name fields))
  unfolding coerce_field
  any-coerce_field i name target key fields =
      elim (Option-cases (present (get_field name fields))) [
        | inl e ↦ rw (e, any) (ground (arith, eqb_iff key name))
        | inr (old, e) ↦ elim (Option-cases (coerce_value lib target old)) [
          | inl f ↦ rw (e, f, any) (ground (arith, eqb_iff key name))
          | inr (new, f) ↦ rw (e, f, any) (ground (arith, eqb_iff key name))
        ]
      ]

  get_field-coerce_fields :
      (i : ℕ) (cs : List (Text × Text)) (fields : Fields F) (key : Text)
      → HasOneEach cs
      → get_field key (coerce_fields lib i cs fields).0
        ≡ coerced (find_coercion key cs) (get_field key fields)
  unfolding coerce_fields
  get_field-coerce_fields i [] fields key h = refl
  get_field-coerce_fields i ((name, target) ∷ cs) fields key h =
      let first = (coerce_field lib i (name, target) fields).0 in
      let below = get_field-coerce_fields i cs first key h.1 in
      let here = get_field-coerce_field i name target key fields in
      elim (Bool-cases (eqb key name)) [
        | inl e ↦
            let same : key ≡ name = (eqb_iff key name).0 e in
            let none_left : find_coercion key cs ≡ none =
              subst (λ k. find_coercion k cs ≡ none) (sym same) h.0 in
            let moved : get_field key fields ≡ get_field name fields =
              ap (λ k. get_field k fields) same in
            rw (e, moved) (below ∙ (rw (none_left, here, e) refl))
        | inr e ↦ rw e (below ∙ (rw (here, e) refl))
      ]

  any-coerce_fields :
      (i : ℕ) (cs : List (Text × Text)) (fields : Fields F) (key : Text)
      → HasOneEach cs
      → any (is_about key) (coerce_fields lib i cs fields).1
        ≡ complains (find_coercion key cs) (get_field key fields)
  unfolding coerce_fields
  any-coerce_fields i [] fields key h = refl
  any-coerce_fields i ((name, target) ∷ cs) fields key h =
      let (first, errors) = coerce_field lib i (name, target) fields in
      let below = any-coerce_fields i cs first key h.1 in
      let here = get_field-coerce_field i name target key fields in
      let now = any-coerce_field i name target key fields in
      let joined = any-append (is_about key) errors (coerce_fields lib i cs first).1 in
      elim (Bool-cases (eqb key name)) [
        | inl e ↦
            let same : key ≡ name = (eqb_iff key name).0 e in
            let none_left : find_coercion key cs ≡ none =
              subst (λ k. find_coercion k cs ≡ none) (sym same) h.0 in
            let moved : get_field key fields ≡ get_field name fields =
              ap (λ k. get_field k fields) same in
            rw (e, moved) (joined ∙ (rw (now, below, none_left, e) (ground arith)))
        | inr e ↦ rw e (joined ∙ (rw (now, below, here, e) refl))
      ]

  -- What becomes of a field for which the mappings ask for this type, or for none: how it was and is,
  -- and whether there is a complaint about it.
  abbrev pub IsTyped : Option Text → Option (Value F) → Option (Value F) → Bool → Type ℓ
  IsTyped none old new complaint = (new ≡ old) × (complaint ≡ false)
  IsTyped (some target) old new complaint = elim (present old) [
    | none ↦ (new ≡ old) × (complaint ≡ false)
    | some v ↦
        ((w : Value F) × (coerce_value lib target v ≡ some w)
          × (new ≡ some w)
          × IsNamed (lib.to_lower target) v w
          × (complaint ≡ false))
        ⊎ ((coerce_value lib target v ≡ none)
            × (is_among (lib.to_lower target) fallible_names ≡ true)
            × (is_scalar v ≡ false)
            × (new ≡ old)
            × (complaint ≡ true))
  ]

  coerced-IsTyped :
      (wanted : Option Text) (old : Option (Value F))
      → IsTyped wanted old (coerced wanted old) (complains wanted old)
  coerced-IsTyped none old = (refl, refl)
  coerced-IsTyped (some target) old = elim (Option-cases (present old)) [
    | inl e ↦ rw (e, IsTyped) (ground arith, ground arith)
    | inr (v, e) ↦ elim (Option-cases (coerce_value lib target v)) [
      | inl f ↦
          rw (e, f, IsTyped)
            (inr (
              refl,
              coerce_value_fails lib target v f,
              coerce_value_scalar lib target v f,
              ground arith,
              ground arith,
            ))
      | inr (w, f) ↦
          rw (e, f, IsTyped)
            (inl (w, refl, ground arith, coerce_value-IsNamed lib target v w f, ground arith))
    ]
  ]

  -- Each field of a record after the coercions that the mappings of its stream ask for, the last mapping
  -- to a field counting: a field without one, a missing and a null one are as before; any other is
  -- the text, integer, number or boolean that the lists of names ask for under its target, and as before
  -- under a target that they do not name, or else the target is an integer, a number or a boolean and the
  -- field neither a number nor a boolean, the conversion failed, which is reported, and the field is as
  -- before.
  pub coerce_fields-IsTyped :
      (i : ℕ) (mappings : List FieldMapping) (fields : Fields F) (key : Text)
      → IsTyped
          (last_type mappings key)
          (get_field key fields)
          (get_field key (coerce_fields lib i (coercions_from mappings []) fields).0)
          (any (is_about key) (coerce_fields lib i (coercions_from mappings []) fields).1)
  coerce_fields-IsTyped i mappings fields key =
      let cs = coercions_from mappings [] in
      let each = coercions_from-HasOneEach mappings [] tt in
      let found : find_coercion key cs ≡ last_type mappings key =
        find_coercion-coercions_from mappings [] key ∙ ground arith in
      rw
        (
          get_field-coerce_fields i cs fields key each,
          any-coerce_fields i cs fields key each,
          found,
        )
        (coerced-IsTyped (last_type mappings key) (get_field key fields))
