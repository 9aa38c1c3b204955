-- ===== src/Schema.antt =====
-- internal/controlplane/schema/manager.go: the comparison of two schemas of a stream. A schema is what
-- encoding/json makes of it; names are their bytes.
pub mod Compatibility
mod Samples
use durable_integrations.Prelude.{
  ℕ, Bool, true, false, not, ◌&&◌, ◌||◌, Option, none, some, List, [], ◌∷◌, ◌++◌, ltb, ◌==◌,
  if◌then◌else◌, any, map,
}
use durable_integrations.Prelude.Bytes.{Text, bytes, eqb}
use durable_integrations.Prelude.Result.{Result, ok, err, ◌>>=◌}

-- The `type` of a property: a string, an array with its strings, or something else.
pub data TypeJson : Type 0 where
  name : Text → TypeJson
  names : List (Option Text) → TypeJson
  other : TypeJson

-- A property that decodes, with its type, or one that does not.
pub data PropertyJson : Type 0 where
  typed : TypeJson → PropertyJson
  malformed : PropertyJson

-- No bytes; an object with a map under "properties", or with nothing there; anything else.
pub data SchemaJson : Type 0 where
  blank without_properties unparsable : SchemaJson
  with_properties : List (Text × PropertyJson) → SchemaJson

pub record PropertyInfo : Type 0 where
  pub kind : Text
  pub nullable : Bool

-- `map[string]propertyInfo`
abbrev pub Properties : Type 0
Properties = List (Text × PropertyInfo)

unfoldable pub find_property : Text → Properties → Option PropertyInfo
find_property field [] = none
find_property field ((key, p) ∷ rest) = if eqb field key then some p else find_property field rest

abbrev pub unknown : Text
unknown = bytes "unknown"

-- The loop over the array of types, with what it has found so far.
unfoldable pub read_types : PropertyInfo → List (Option Text) → PropertyInfo
read_types info [] = info
read_types info (none ∷ rest) = read_types info rest
read_types info (some t ∷ rest) =
    read_types
      (if eqb t (bytes "null") then record info { nullable = true } else record info { kind = t })
      rest

unfoldable pub parse_property_type : PropertyJson → PropertyInfo
parse_property_type malformed = record { kind = unknown; nullable = false }
parse_property_type (typed (name t)) = record { kind = t; nullable = false }
parse_property_type (typed (names ts)) = read_types (record { kind = unknown; nullable = false }) ts
parse_property_type (typed other) = record { kind = unknown; nullable = false }

abbrev pub parse_properties : List (Text × PropertyJson) → Properties
parse_properties [] = []
parse_properties ((key, p) ∷ rest) = (key, parse_property_type p) ∷ parse_properties rest

pub data SchemaError : Type 0 where
  no_stream cannot_parse : SchemaError
  no_version : ℕ → SchemaError

unfoldable pub extract_properties : SchemaJson → Result SchemaError Properties
extract_properties blank = ok []
extract_properties without_properties = ok []
extract_properties (with_properties ps) = ok (parse_properties ps)
extract_properties unparsable = err cannot_parse

pub data ChangeType : Type 0 where
  added_field removed_field type_change nullable_change : ChangeType

pub record SchemaChange : Type 0 where
  pub change : ChangeType
  pub field : Text
  pub old_value : Text
  pub new_value : Text
  pub is_breaking : Bool

-- A set of names: each is entered once.
unfoldable pub add_names : List Text → Properties → List Text
add_names fields [] = fields
add_names fields ((key, p) ∷ rest) =
    add_names (if any (eqb key) fields then fields else key ∷ fields) rest

-- `<` on strings.
unfoldable pub less : Text → Text → Bool
less xs [] = false
less [] (y ∷ ys) = true
less (x ∷ xs) (y ∷ ys) = ltb x y || ((x == y) && less xs ys)

-- `sort.Strings`
unfoldable pub insert_name : Text → List Text → List Text
insert_name key [] = key ∷ []
insert_name key (x ∷ xs) =
    let further = x ∷ insert_name key xs in if less x key then further else key ∷ x ∷ xs

unfoldable pub sort_names : List Text → List Text
sort_names [] = []
sort_names (x ∷ xs) = insert_name x (sort_names xs)

abbrev pub shows_nullable : Bool → Text
shows_nullable true = bytes "nullable=true"
shows_nullable false = bytes "nullable=false"

abbrev pub same_flag : Bool → Bool → Bool
same_flag true b = b
same_flag false b = not b

abbrev pub when_change : Bool → SchemaChange → List SchemaChange
when_change true c = c ∷ []
when_change false c = []

-- One round of the loop over the names: what the two schemas say of a field.
unfoldable pub field_changes : Text → Option PropertyInfo → Option PropertyInfo → List SchemaChange
field_changes field none none = []
field_changes field (some o) none =
    record {
      change = removed_field;
      field = field;
      old_value = o.kind;
      new_value = [];
      is_breaking = true;
    }
    ∷ []
field_changes field none (some n) =
    record {
      change = added_field;
      field = field;
      old_value = [];
      new_value = n.kind;
      is_breaking = false;
    }
    ∷ []
field_changes field (some o) (some n) =
    when_change (not (eqb o.kind n.kind)) (record {
      change = type_change;
      field = field;
      old_value = o.kind;
      new_value = n.kind;
      is_breaking = true;
    })
    ++ when_change (not (same_flag o.nullable n.nullable)) (record {
      change = nullable_change;
      field = field;
      old_value = shows_nullable o.nullable;
      new_value = shows_nullable n.nullable;
      is_breaking = o.nullable && not n.nullable;
    })

-- The loop over the names.
unfoldable pub changes_of : Properties → Properties → List Text → List SchemaChange
changes_of old new [] = []
changes_of old new (f ∷ fs) =
    field_changes f (find_property f old) (find_property f new) ++ changes_of old new fs

unfoldable pub all_fields : Properties → Properties → List Text
all_fields old new = sort_names (add_names (add_names [] old) new)

unfoldable pub detect_breaking_changes :
    SchemaJson → SchemaJson → Result SchemaError (List SchemaChange)
detect_breaking_changes old_schema new_schema = extract_properties old_schema >>= λ old.
    extract_properties new_schema >>= λ new. ok (changes_of old new (all_fields old new))

pub record SchemaDiff : Type 0 where
  pub changes : List SchemaChange
  pub is_compatible : Bool

-- The version of a stream in the repository, or that there is none.
abbrev pub found_version : ℕ → Option SchemaJson → Result SchemaError SchemaJson
found_version v none = err (no_version v)
found_version v (some schema) = ok schema

unfoldable pub compare_schemas :
    (Text → ℕ → Option SchemaJson) → Text → ℕ → ℕ → Result SchemaError SchemaDiff
compare_schemas get_version stream_id v1 v2 =
    if eqb stream_id []
    then err no_stream
    else if v1 == v2
    then ok (record { changes = []; is_compatible = true })
    else found_version v1 (get_version stream_id v1) >>= λ one.
        found_version v2 (get_version stream_id v2) >>= λ two.
        detect_breaking_changes one two >>= λ changes.
        ok (record { changes = changes; is_compatible = not (any (λ c. c.is_breaking) changes) })
