-- ===== src/Mapping/Auto/Fields.antt =====
-- extractFields and SuggestMappings of automapper.go. A schema is the JSON value that it decodes to, and
-- `none` if it is empty or does not decode.
use durable_integrations.Prelude.{
  ℕ, true, false, Option, none, some, List, [], ◌∷◌, ◌++◌, if◌then◌else◌, length,
}
use durable_integrations.Prelude.Bytes.{Text, bytes, eqb}
use durable_integrations.Mapping.Expression.Syntax.{
  Value, null, text, object, Fields, end, field, get_field,
}
use durable_integrations.Mapping.Auto.{
  Floats, FieldMapping, SchemaField, AutoMapper, ScoredPair, name_similarity, match_fields,
}

-- `prefix + "." + name`, if there is a prefix.
abbrev pub path_below : Text → Text → Text
path_below [] name = name
path_below (c ∷ prefix) name = (c ∷ prefix) ++ 46 ∷ name

-- A field with those that are nested in it.
abbrev pub own_fields : Text → Text → Text → List SchemaField → List SchemaField
own_fields path kind name nested =
    let own : List SchemaField = (record { path = path; kind = kind; name = name }) ∷ [] in
    if eqb kind (bytes "object") then elim nested [ [] ↦ own | (f ∷ fs) ↦ f ∷ fs ] else own

-- A stream of a catalog.
pub record Stream {ℓ} (F : Type ℓ) : Type ℓ where
  pub name : Text
  pub schema : Option (Value F)

module _ {ℓ} {F : Type ℓ} where
  abbrev pub type_text : Option (Value F) → Text
  type_text (some (text t)) = t
  type_text (some null) = []
  type_text v = bytes "string"

  -- The type of a field definition, which is "string" if it is no object.
  abbrev pub type_of : Value F → Text
  type_of (object definition) = type_text (get_field (bytes "type") definition)
  type_of v = bytes "string"

  unfoldable mutual
    pub extract_fields : Value F → Text → List SchemaField
    extract_fields (object schema) prefix = extract_properties schema prefix
    extract_fields v prefix = []

    -- What stands under "properties".
    pub extract_properties : Fields F → Text → List SchemaField
    extract_properties end prefix = []
    extract_properties (field name value rest) prefix = elim (eqb (bytes "properties") name) [
      | true ↦ extract_all value prefix
      | false ↦ extract_properties rest prefix
    ]

    pub extract_all : Value F → Text → List SchemaField
    extract_all (object properties) prefix = extract_each properties prefix
    extract_all v prefix = []

    pub extract_each : Fields F → Text → List SchemaField
    extract_each end prefix = []
    extract_each (field name definition rest) prefix =
        own_fields (path_below prefix name) (type_of definition) name
          (extract_fields definition (path_below prefix name))
        ++ extract_each rest prefix

  -- `len(schema) == 0`, or an error.
  abbrev pub fields_of : Option (Value F) → List SchemaField
  fields_of none = []
  fields_of (some schema) = extract_fields schema []

module _ {ℓ} {F : Type ℓ} (floats : Floats F) (to_lower : ℕ → ℕ) where
  -- The destination stream with the best name, the first of them, and its score.
  unfoldable pub best_stream :
      Text → List (Stream F) → Option (Stream F) × F → Option (Stream F) × F
  best_stream name [] best = best
  best_stream name (stream ∷ streams) (best, best_score) =
      let score = name_similarity floats to_lower name stream.name in
      best_stream name streams
        (if floats.greater score best_score then (some stream, score) else (best, best_score))

  unfoldable pub suggest_stream_mappings :
      (List (ScoredPair F) → List (ScoredPair F))
      → AutoMapper F
      → Option (Value F)
      → Option (Value F)
      → List (FieldMapping F)
  suggest_stream_mappings sort am source dest =
      match_fields floats to_lower sort am (fields_of source) (fields_of dest)

  -- The loop over the source streams.
  unfoldable pub all_mappings :
      (List (ScoredPair F) → List (ScoredPair F))
      → AutoMapper F
      → List (Stream F)
      → List (Stream F)
      → List (FieldMapping F)
  all_mappings sort am [] dests = []
  all_mappings sort am (source ∷ sources) dests =
      let rest = all_mappings sort am sources dests in
      elim (best_stream source.name dests (none, floats.of_tenths 0)).0 [
        | none ↦ rest
        | some dest ↦ suggest_stream_mappings sort am source.schema dest.schema ++ rest
      ]

  abbrev total_confidence : F → List (FieldMapping F) → F
  total_confidence total [] = total
  total_confidence total (m ∷ mappings) = total_confidence (floats.add total m.confidence) mappings

  abbrev pub with_average : List (FieldMapping F) → List (FieldMapping F) × F
  with_average [] = ([], floats.of_tenths 0)
  with_average (m ∷ mappings) = (
    m ∷ mappings,
    floats.divide (total_confidence (floats.of_tenths 0) (m ∷ mappings))
        (floats.of_nat (length (m ∷ mappings))),
  )

  -- A catalog that is missing has no streams.
  unfoldable pub suggest_mappings :
      (List (ScoredPair F) → List (ScoredPair F))
      → AutoMapper F
      → List (Stream F)
      → List (Stream F)
      → List (FieldMapping F) × F
  suggest_mappings sort am sources dests = with_average (all_mappings sort am sources dests)
