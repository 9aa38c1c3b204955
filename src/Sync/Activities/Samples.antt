-- ===== src/Sync/Activities/Samples.antt =====
-- The activities on a few records, with a codec that keeps one field, and the theorems there.
use durable_integrations.Prelude.{
  String, ◌+◌, Option, none, some, List, [], ◌∷◌, ◌≡◌, refl, if◌then◌else◌, any, length,
}
use durable_integrations.Prelude.Bytes.{Text, bytes, eqb}
use durable_integrations.Prelude.Int.{ℤ, pos, eqbℤ}
use durable_integrations.Mapping.Expression.Syntax.{Value, text, Fields, end, field, get_field}
use durable_integrations.Sync.Activities.{Record, FieldMapping, Libraries}
use durable_integrations.Sync.Activities.Renaming.{
  map_data, last_mapped, is_source, get_field-map_data,
}
use durable_integrations.Sync.Activities.Coercion.{coerce_fields, coercions_from}
use durable_integrations.Sync.Activities.Coercion.Typing.{IsTyped, is_about, coerce_fields-IsTyped}
use durable_integrations.Sync.Activities.Coercion.Lookup.{last_type}
use durable_integrations.Sync.Activities.Duplicates.{
  ConfiguredStream, join_bars, deduplicate_activity, dedupe_from, record_key, stream_key,
  extract_primary_key,
}
use durable_integrations.Sync.Activities.Duplicates.Repeats.{
  first_ones, deduplicate_activity-first_ones,
}

abbrev shown : Value ℤ → Text
shown (text t) = t
shown v = bytes "<nil>"

abbrev id_of : Option (Fields ℤ) → Text
id_of none = bytes "bad"
id_of (some fields) = elim (get_field (bytes "id") fields) [ none ↦ [] | some v ↦ shown v ]

abbrev libraries : Libraries ℤ
libraries = record {
  unmarshal =
      λ t. if eqb t (bytes "bad") then none else some (some (field (bytes "id") (text t) end));
  marshal = λ fields. some (id_of fields);
  to_lower = λ t. t;
  format = shown;
  format_int = λ i. [];
  format_float = λ x. [];
  parse_int = λ t. if eqb t (bytes "7") then some (pos 7) else none;
  parse_float = λ t. none;
  parse_bool = λ t. none;
  truncate = λ x. x;
  of_int = λ i. i;
  same_float = eqbℤ;
  is_zero = λ x. eqbℤ x (pos 0);
  parse_time = λ layout t. none;
  format_time = λ t. [];
}

abbrev rec : String → Record
rec content = record {
  stream = bytes "users";
  namespace = [];
  content = bytes content;
  emitted_at = pos 0;
}

abbrev streams : List ConfiguredStream
streams =
    record { name = bytes "users"; source_key = (bytes "id" ∷ []) ∷ []; primary_key = [] } ∷ []

abbrev mappings : List FieldMapping
mappings =
    record { source_field = bytes "id"; dest_field = bytes "user"; coerce_type = bytes "int64" }
    ∷ []

abbrev source : Fields ℤ
source = field (bytes "id") (text (bytes "7")) (field (bytes "name") (text (bytes "Ada")) end)

abbrev records : List Record
records = rec "a" ∷ rec "b" ∷ rec "a" ∷ rec "bad" ∷ []

kept : (deduplicate_activity libraries streams records).records ≡ rec "a" ∷ rec "b" ∷ rec "bad" ∷ []
unfolding deduplicate_activity dedupe_from record_key stream_key extract_primary_key
kept = refl

-- Two keys that are joined to one text.
joined : join_bars (bytes "a|b" ∷ bytes "c" ∷ []) ≡ join_bars (bytes "a" ∷ bytes "b|c" ∷ [])
joined = refl

get_field-map_data_example :
    get_field (bytes "user") (map_data mappings source)
    ≡ elim (last_mapped source mappings (bytes "user")) [
      | some value ↦ some value
      | none ↦ if is_source mappings (bytes "user") then none else get_field (bytes "user") source
    ]
get_field-map_data_example = get_field-map_data mappings source (bytes "user")

abbrev mapped : Fields ℤ
mapped = field (bytes "user") (text (bytes "7")) end

coerce_fields-IsTyped_example :
    IsTyped libraries
      (last_type mappings (bytes "user"))
      (get_field (bytes "user") mapped)
      (get_field (bytes "user") (coerce_fields libraries 0 (coercions_from mappings []) mapped).0)
      (any
        (is_about (bytes "user"))
        (coerce_fields libraries 0 (coercions_from mappings []) mapped).1)
coerce_fields-IsTyped_example = coerce_fields-IsTyped libraries 0 mappings mapped (bytes "user")

deduplicate_activity-first_ones_example :
    ((deduplicate_activity libraries streams records).records
      ≡ first_ones libraries streams [] records)
    × (length (deduplicate_activity libraries streams records).records
          + (deduplicate_activity libraries streams records).duplicates_found
        ≡ length records)
deduplicate_activity-first_ones_example = deduplicate_activity-first_ones libraries streams records
