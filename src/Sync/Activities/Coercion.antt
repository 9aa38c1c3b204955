-- ===== src/Sync/Activities/Coercion.antt =====
-- CoerceTypesActivity of transform_activities.go; Typing.antt is what it makes of a record. The types are those that encoding/json decodes to
-- and int64; a conversion returns `none` for its error.
pub mod Lookup
pub mod Names
pub mod Conversions
pub mod Typing
use durable_integrations.Prelude.{
  ℕ, ◌+◌, Bool, true, false, ◌||◌, not, Option, none, some, List, [], ◌∷◌, ◌++◌, ◌≡◌, refl, arith,
  if◌then◌else◌, Option-cases, Bool-cases, inl, inr,
}
use durable_integrations.Prelude.Bytes.{Text, bytes, eqb, eqb_iff}
use durable_integrations.Prelude.Int.{ℤ, pos}
use durable_integrations.Mapping.Expression.Syntax.{
  Value, null, boolean, number, integer, text, array, object, Fields, end, field, get_field,
}
use durable_integrations.Sync.Activities.{
  Record, FieldMapping, Failure, unmarshal_failed, coercion_failed, Output, Libraries, entries,
  put_field, get_field-put_field, add_record, add_error, add_marshalled,
}

-- The cases of the switch.
pub data Kind : Type 0 where
  string_kind int_kind float_kind bool_kind time_kind other_kind : Kind

unfoldable pub kind_named : Text → Kind
kind_named t =
    if eqb t (bytes "string")
    then string_kind
    else if eqb t (bytes "int64") || eqb t (bytes "int") || eqb t (bytes "integer")
    then int_kind
    else if eqb t (bytes "float64")
        || eqb t (bytes "float")
        || eqb t (bytes "double")
        || eqb t (bytes "number")
    then float_kind
    else if eqb t (bytes "bool") || eqb t (bytes "boolean")
    then bool_kind
    else if eqb t (bytes "timestamp") || eqb t (bytes "datetime")
    then time_kind
    else other_kind

module _ {ℓ} {F : Type ℓ} (lib : Libraries F) where
  -- The switch on the target in lower case.
  unfoldable pub kind_of : Text → Kind
  kind_of target = kind_named (lib.to_lower target)

  unfoldable pub coerce_to_string : Value F → Text
  coerce_to_string (text t) = t
  coerce_to_string (number x) =
      if lib.same_float x (lib.of_int (lib.truncate x))
      then lib.format_int (lib.truncate x)
      else lib.format_float x
  coerce_to_string (boolean true) = bytes "true"
  coerce_to_string (boolean false) = bytes "false"
  coerce_to_string null = []
  coerce_to_string v = lib.format v

  -- The texts that ParseInt refuses.
  abbrev pub float_text_to_int : Text → Option ℤ
  float_text_to_int t = elim (lib.parse_float t) [ none ↦ none | some x ↦ some (lib.truncate x) ]

  unfoldable pub coerce_to_int64 : Value F → Option ℤ
  coerce_to_int64 (number x) = some (lib.truncate x)
  coerce_to_int64 (text t) = elim (lib.parse_int t) [ some i ↦ some i | none ↦ float_text_to_int t ]
  coerce_to_int64 (boolean true) = some (pos 1)
  coerce_to_int64 (boolean false) = some (pos 0)
  coerce_to_int64 null = some (pos 0)
  coerce_to_int64 v = none

  unfoldable pub coerce_to_float64 : Value F → Option F
  coerce_to_float64 (number x) = some x
  coerce_to_float64 (text t) = lib.parse_float t
  coerce_to_float64 (boolean true) = some (lib.of_int (pos 1))
  coerce_to_float64 (boolean false) = some (lib.of_int (pos 0))
  coerce_to_float64 null = some (lib.of_int (pos 0))
  coerce_to_float64 v = none

  unfoldable pub coerce_to_bool : Value F → Option Bool
  coerce_to_bool (boolean b) = some b
  coerce_to_bool (number x) = some (not (lib.is_zero x))
  coerce_to_bool (text t) = lib.parse_bool t
  coerce_to_bool null = some false
  coerce_to_bool v = none

  abbrev pub formats : List Text
  formats =
      bytes "2006-01-02T15:04:05Z07:00"
      ∷ bytes "2006-01-02T15:04:05.999999999Z07:00"
      ∷ bytes "2006-01-02T15:04:05"
      ∷ bytes "2006-01-02 15:04:05"
      ∷ bytes "2006-01-02"
      ∷ []

  -- The loop over the formats.
  unfoldable pub first_time : List Text → Text → Text
  first_time [] v = v
  first_time (f ∷ fs) v = elim (lib.parse_time f v) [
    | some t ↦ lib.format_time t
    | none ↦ first_time fs v
  ]

  unfoldable pub coerce_to_timestamp : Value F → Text
  coerce_to_timestamp (text t) = first_time formats t
  coerce_to_timestamp (number x) = lib.format_time (lib.truncate x)
  coerce_to_timestamp null = []
  coerce_to_timestamp v = lib.format v

  -- The branches of the switch.
  unfoldable pub coerce_to : Kind → Value F → Option (Value F)
  coerce_to string_kind v = some (text (coerce_to_string v))
  coerce_to int_kind v = elim (coerce_to_int64 v) [ none ↦ none | some i ↦ some (integer i) ]
  coerce_to float_kind v = elim (coerce_to_float64 v) [ none ↦ none | some x ↦ some (number x) ]
  coerce_to bool_kind v = elim (coerce_to_bool v) [ none ↦ none | some b ↦ some (boolean b) ]
  coerce_to time_kind v = some (text (coerce_to_timestamp v))
  coerce_to other_kind v = some v

  unfoldable pub coerce_value : Text → Value F → Option (Value F)
  coerce_value target v = coerce_to (kind_of target) v

-- `fieldCoercions[key] = target`
unfoldable pub put_coercion : Text → Text → List (Text × Text) → List (Text × Text)
put_coercion key target [] = (key, target) ∷ []
put_coercion key target ((name, old) ∷ rest) =
    let others = put_coercion key target rest in
    if eqb key name then (name, target) ∷ rest else (name, old) ∷ others

-- The lookup of the field coercions of one stream, for the mappings that are left.
unfoldable pub coercions_from : List FieldMapping → List (Text × Text) → List (Text × Text)
coercions_from [] coercions = coercions
coercions_from (m ∷ mappings) coercions =
    coercions_from mappings (
      if eqb m.coerce_type [] then coercions else put_coercion m.dest_field m.coerce_type coercions)

-- A missing field and a null one stay as they are.
abbrev pub present {ℓ} : {F : Type ℓ} → Option (Value F) → Option (Value F)
present none = none
present (some null) = none
present (some v) = some v

module _ {ℓ} {F : Type ℓ} (lib : Libraries F) where
  -- The body of the loop over the coercions of a record.
  unfoldable pub coerce_field : ℕ → Text × Text → Fields F → Fields F × List Failure
  coerce_field i (name, target) fields = elim (present (get_field name fields)) [
    | none ↦ (fields, [])
    | some v ↦ elim (coerce_value lib target v) [
      | none ↦ (fields, coercion_failed i name ∷ [])
      | some w ↦ (put_field name w fields, [])
    ]
  ]

  unfoldable pub coerce_fields : ℕ → List (Text × Text) → Fields F → Fields F × List Failure
  coerce_fields i [] fields = (fields, [])
  coerce_fields i (c ∷ coercions) fields =
      let (first, errors) = coerce_field i c fields in
      let (last, more) = coerce_fields i coercions first in (last, errors ++ more)

  -- What is marshalled: a nil map, in which no field is present, stays nil.
  abbrev pub like : Option (Fields F) → Fields F → Option (Fields F)
  like none fields = none
  like (some old) fields = some fields

  -- The body of the loop over records.
  unfoldable pub coerce_record : List (Text × Text) → ℕ → Record → Output → Output
  coerce_record coercions i rec out = elim (lib.unmarshal rec.content) [
    | none ↦ add_error (unmarshal_failed i rec.stream) out
    | some content ↦
        let (fields, errors) = coerce_fields i coercions (entries content) in
        let rest = add_marshalled i rec (lib.marshal (like content fields)) out in
        record rest { errors = errors ++ rest.errors }
  ]

  unfoldable pub coerce_records : (Text → Option (List FieldMapping)) → ℕ → List Record → Output
  coerce_records field_mappings i [] = record { records = []; errors = [] }
  coerce_records field_mappings i (rec ∷ recs) =
      let rest = coerce_records field_mappings (i + 1) recs in
      elim (field_mappings rec.stream) [
        | none ↦ add_record rec rest
        | some mappings ↦ elim (coercions_from mappings []) [
          | [] ↦ add_record rec rest
          | (c ∷ cs) ↦ coerce_record (c ∷ cs) i rec rest
        ]
      ]

  unfoldable pub coerce_types_activity : (Text → Option (List FieldMapping)) → List Record → Output
  coerce_types_activity field_mappings records = coerce_records field_mappings 0 records
