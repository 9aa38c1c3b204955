-- ===== src/Sync/Activities/Renaming.antt =====
-- MapFieldsActivity of transform_activities.go.
use durable_integrations.Prelude.{
  ℕ, ◌+◌, Bool, Option, none, some, List, [], ◌∷◌, ◌≡◌, arith, if◌then◌else◌, any, Option-cases,
  Bool-cases, inl, inr,
}
use durable_integrations.Prelude.Bytes.{Text, eqb, eqb_iff}
use durable_integrations.Mapping.Expression.Syntax.{Value, Fields, end, field, get_field}
use durable_integrations.Sync.Activities.{
  Record, FieldMapping, unmarshal_failed, Output, Libraries, entries, put_field,
  get_field-put_field, add_record, add_error, add_marshalled,
}

-- `mappedSources[key]`
abbrev pub is_source : List FieldMapping → Text → Bool
is_source mappings key = any (λ m. eqb m.source_field key) mappings

module _ {ℓ} {F : Type ℓ} where
  -- The body of the loop over the mappings: a source field that is missing is passed over.
  unfoldable pub map_source : FieldMapping → Fields F → Fields F → Fields F
  map_source m source dest = elim (get_field m.source_field source) [
    | none ↦ dest
    | some value ↦ put_field m.dest_field value dest
  ]

  unfoldable pub map_sources : Fields F → List FieldMapping → Fields F → Fields F
  map_sources source [] dest = dest
  map_sources source (m ∷ mappings) dest = map_sources source mappings (map_source m source dest)

  -- The body of the loop over the source's own fields.
  abbrev pub carry_field : List FieldMapping → Text → Value F → Fields F → Fields F
  carry_field mappings key value dest =
      if is_source mappings key
      then dest
      else elim (get_field key dest) [ none ↦ put_field key value dest | some _ ↦ dest ]

  unfoldable pub carry_rest : List FieldMapping → Fields F → Fields F → Fields F
  carry_rest mappings end dest = dest
  carry_rest mappings (field key value rest) dest =
      carry_rest mappings rest (carry_field mappings key value dest)

  unfoldable pub map_data : List FieldMapping → Fields F → Fields F
  map_data mappings source = carry_rest mappings source (map_sources source mappings end)

  -- The body of the loop over records.
  unfoldable pub map_record : Libraries F → List FieldMapping → ℕ → Record → Output → Output
  map_record lib mappings i rec out = elim (lib.unmarshal rec.content) [
    | none ↦ add_error (unmarshal_failed i rec.stream) out
    | some source ↦
        add_marshalled i rec (lib.marshal (some (map_data mappings (entries source)))) out
  ]

  unfoldable pub map_records :
      Libraries F → (Text → Option (List FieldMapping)) → ℕ → List Record → Output
  map_records lib field_mappings i [] = record { records = []; errors = [] }
  map_records lib field_mappings i (rec ∷ recs) =
      let rest = map_records lib field_mappings (i + 1) recs in
      elim (field_mappings rec.stream) [
        | none ↦ add_record rec rest
        | some [] ↦ add_record rec rest
        | some (m ∷ ms) ↦ map_record lib (m ∷ ms) i rec rest
      ]

  unfoldable pub map_fields_activity :
      Libraries F → (Text → Option (List FieldMapping)) → List Record → Output
  map_fields_activity lib field_mappings records = map_records lib field_mappings 0 records

  -- What the mappings say of a destination field: the last that has the field for its destination and
  -- a source that is there.
  abbrev pub last_mapped : Fields F → List FieldMapping → Text → Option (Value F)
  last_mapped source [] key = none
  last_mapped source (m ∷ mappings) key = elim (last_mapped source mappings key) [
    | some value ↦ some value
    | none ↦ if eqb key m.dest_field then get_field m.source_field source else none
  ]

  get_field-map_source :
      (m : FieldMapping) (source dest : Fields F) (key : Text)
      → get_field key (map_source m source dest)
        ≡ elim (if eqb key m.dest_field then get_field m.source_field source else none) [
          | some value ↦ some value
          | none ↦ get_field key dest
        ]
  unfolding map_source
  get_field-map_source m source dest key = elim (Option-cases (get_field m.source_field source)) [
    | inl e ↦ rw e (ground arith)
    | inr (value, e) ↦ rw e (ground (arith, get_field-put_field m.dest_field key value dest))
  ]

  get_field-map_sources :
      (source : Fields F) (mappings : List FieldMapping) (dest : Fields F) (key : Text)
      → get_field key (map_sources source mappings dest) ≡ elim (last_mapped source mappings key) [
        | some value ↦ some value
        | none ↦ get_field key dest
      ]
  unfolding map_sources
  get_field-map_sources source [] dest key = ground arith
  get_field-map_sources source (m ∷ mappings) dest key = ground (
    arith,
    get_field-map_sources source mappings (map_source m source dest) key,
    get_field-map_source m source dest key,
  )

  get_field-carry_rest :
      (mappings : List FieldMapping) (source dest : Fields F) (key : Text)
      → get_field key (carry_rest mappings source dest) ≡ elim (get_field key dest) [
        | some value ↦ some value
        | none ↦ if is_source mappings key then none else get_field key source
      ]
  unfolding carry_rest
  get_field-carry_rest mappings end dest key = ground arith
  get_field-carry_rest mappings (field name value rest) dest key =
      let dest' = carry_field mappings name value dest in
      let below = get_field-carry_rest mappings rest dest' key in
      let written = get_field-put_field name key value dest in
      elim (Bool-cases (eqb key name)) [
        | inl e ↦ let same : key ≡ name = (eqb_iff key name).0 e in ground (arith, below, written)
        | inr e ↦ ground (arith, below, written)
      ]

  -- What a mapped record holds under a key: what the last mapping to it moves there whose source field
  -- is present; without one, what the record held itself, unless a mapping has that field as its source.
  pub get_field-map_data :
      (mappings : List FieldMapping) (source : Fields F) (key : Text)
      → get_field key (map_data mappings source) ≡ elim (last_mapped source mappings key) [
        | some value ↦ some value
        | none ↦ if is_source mappings key then none else get_field key source
      ]
  unfolding map_data
  get_field-map_data mappings source key = ground (
    arith,
    get_field-carry_rest mappings source (map_sources source mappings end) key,
    get_field-map_sources source mappings end key,
  )
