-- ===== src/Schema/Samples.antt =====
-- Two versions of a stream, and the theorem there.
use durable_integrations.Prelude.{
  ℕ, ◌≡◌, refl, ◌↔◌, true, false, Option, some, List, [], ◌∷◌, zero, suc,
}
use durable_integrations.Prelude.Bytes.{Text, bytes}
use durable_integrations.Prelude.Result.{ok}
use durable_integrations.Schema.{
  SchemaJson, with_properties, typed, name, names, Properties, parse_properties,
  parse_property_type, read_types, extract_properties, SchemaChange, removed_field, added_field,
  nullable_change, find_property, insert_name, sort_names, add_names, less, field_changes,
  changes_of, all_fields, detect_breaking_changes, SchemaDiff, compare_schemas, PropertyJson,
}
use durable_integrations.Schema.Compatibility.{Takes, SameFields, compare_schemas_iff}

abbrev first_properties : List (Text × PropertyJson)
first_properties =
    (bytes "mail", typed (names (some (bytes "string") ∷ some (bytes "null") ∷ [])))
    ∷ (bytes "id", typed (name (bytes "integer")))
    ∷ []

abbrev second_properties : List (Text × PropertyJson)
second_properties =
    (bytes "mail", typed (name (bytes "string")))
    ∷ (bytes "city", typed (name (bytes "string")))
    ∷ []

abbrev versions : Text → ℕ → Option SchemaJson
versions stream zero = some (with_properties first_properties)
versions stream (suc n) = some (with_properties second_properties)

abbrev changes : List SchemaChange
changes =
    record {
      change = added_field;
      field = bytes "city";
      old_value = [];
      new_value = bytes "string";
      is_breaking = false;
    }
    ∷ record {
      change = removed_field;
      field = bytes "id";
      old_value = bytes "integer";
      new_value = [];
      is_breaking = true;
    }
    ∷ record {
      change = nullable_change;
      field = bytes "mail";
      old_value = bytes "nullable=true";
      new_value = bytes "nullable=false";
      is_breaking = true;
    }
    ∷ []

compared :
    compare_schemas versions (bytes "s") 0 1
    ≡ ok (record { changes = changes; is_compatible = false })
unfolding compare_schemas detect_breaking_changes extract_properties parse_property_type read_types
    all_fields sort_names insert_name less add_names changes_of find_property field_changes
compared = refl

abbrev old_fields : Properties
old_fields = parse_properties first_properties

abbrev new_fields : Properties
new_fields = parse_properties second_properties

compare_schemas_iff_example :
    (diff : SchemaDiff) × (compare_schemas versions (bytes "s") 0 1 ≡ ok diff)
    × ((diff.is_compatible ≡ true) ↔ Takes old_fields new_fields)
    × ((diff.changes ≡ []) ↔ SameFields old_fields new_fields)
unfolding extract_properties
compare_schemas_iff_example =
    compare_schemas_iff versions (bytes "s") 0 1 (with_properties first_properties)
      (with_properties second_properties) old_fields new_fields refl refl refl refl refl refl
