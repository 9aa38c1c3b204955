-- ===== src/Transform/Mapper.antt =====
-- internal/worker/transform/mapper.go: how a path leads into a record, to read and to write. Records are
-- decoded JSON; a path is its bytes.
pub mod Parts
pub mod Paths
mod Samples
use durable_integrations.Prelude.{
  ℕ, zero, suc, ◌+◌, ◌-◌, ◌*◌, Bool, true, false, not, ◌&&◌, ◌||◌, Option, none, some, List, [],
  ◌∷◌, ◌++◌, ltb, leb, ◌==◌, if◌then◌else◌,
}
use durable_integrations.Prelude.Bytes.{Text, bytes, eqb}
use durable_integrations.Prelude.Result.{Result, ok, err, ◌>>=◌}

mutual
  -- `interface{}` as encoding/json decodes it; a scalar is a number, in some form.
  pub data Json : Type 0 where
    null : Json
    boolean : Bool → Json
    scalar : Text → Json
    text : Text → Json
    array : Items → Json
    object : Fields → Json

  pub data Items : Type 0 where
    done : Items
    item : Json → Items → Items

  -- `map[string]interface{}`
  pub data Fields : Type 0 where
    end : Fields
    field : Text → Json → Fields → Fields

unfoldable pub get_field : Text → Fields → Option Json
get_field key end = none
get_field key (field name value rest) = if eqb key name then some value else get_field key rest

-- `m[key] = value`
unfoldable pub put_field : Text → Json → Fields → Fields
put_field key value end = field key value end
put_field key value (field name old rest) =
    let others = put_field key value rest in
    if eqb key name then field name value rest else field name old others

abbrev pub get_item : ℕ → Items → Option Json
get_item i done = none
get_item zero (item v rest) = some v
get_item (suc i) (item v rest) = get_item i rest

-- The bytes of ".", "[" and "]".
abbrev pub dot : ℕ
dot = 46

abbrev pub bracket : ℕ
bracket = 91

abbrev pub closing_bracket : ℕ
closing_bracket = 93

-- The builder's text becomes a segment, unless it is empty.
abbrev pub flush : Text → List Text → List Text
flush [] segments = segments
flush (c ∷ cs) segments = (c ∷ cs) ∷ segments

-- The loop of parsePath, with what the builder holds, outside and inside brackets.
unfoldable mutual
  pub segments_from : Text → Text → List Text
  segments_from current [] = flush current []
  segments_from current (c ∷ cs) = elim (c == dot) [
    | true ↦ flush current (segments_from [] cs)
    | false ↦ elim (c == bracket) [
      | true ↦ flush current (index_from (bracket ∷ []) cs)
      | false ↦ segments_from (current ++ c ∷ []) cs
    ]
  ]

  pub index_from : Text → Text → List Text
  index_from current [] = current ∷ []
  index_from current (c ∷ cs) = elim (c == closing_bracket) [
    | true ↦ (current ++ closing_bracket ∷ []) ∷ segments_from [] cs
    | false ↦ index_from (current ++ c ∷ []) cs
  ]

unfoldable pub parse_path : Text → List Text
parse_path path = segments_from [] path

-- The front of a text up to its last byte, if that is a closing bracket.
abbrev pub before_bracket : Text → Option Text
before_bracket [] = none
before_bracket (c ∷ []) = if c == closing_bracket then some [] else none
before_bracket (c ∷ d ∷ ds) = elim (before_bracket (d ∷ ds)) [
  | none ↦ none
  | some front ↦ some (c ∷ front)
]

-- What stands in the brackets of a segment, if it is one with brackets.
abbrev pub index_text : Text → Option Text
index_text [] = none
index_text (c ∷ cs) = elim (c == bracket) [ true ↦ before_bracket cs | false ↦ none ]

-- strconv.Atoi of a text without a sign.
abbrev pub digits_value : ℕ → Text → Option ℕ
digits_value n [] = some n
digits_value n (c ∷ cs) = if leb 48 c && leb c 57 then digits_value (n * 10 + (c - 48)) cs else none

-- A negative index is out of range, but `-0` is 0.
abbrev pub not_negative : Option ℕ → Option ℕ
not_negative (some zero) = some zero
not_negative n = none

-- strconv.Atoi of an index, if that is one.
abbrev pub index_value : Text → Option ℕ
index_value [] = none
index_value (c ∷ []) = digits_value 0 (c ∷ [])
index_value (c ∷ d ∷ ds) =
    if c == 43
    then digits_value 0 (d ∷ ds)
    else if c == 45
    then not_negative (digits_value 0 (d ∷ ds))
    else digits_value 0 (c ∷ d ∷ ds)

-- One step down: `none` is a lookup that ends in nil.
unfoldable pub step_down : Text → Json → Option Json
step_down segment current = elim (index_text segment) [
  | some inside ↦ elim (index_value inside) [
    | none ↦ none
    | some i ↦ elim current [ (array items) ↦ get_item i items | _ ↦ none ]
  ]
  | none ↦ elim current [ (object fields) ↦ get_field segment fields | _ ↦ none ]
]

unfoldable pub walk : Json → List Text → Json
walk current [] = current
walk current (s ∷ rest) = elim (step_down s current) [ none ↦ null | some v ↦ walk v rest ]

unfoldable pub get_nested_value : Fields → Text → Json
get_nested_value data_map path = walk (object data_map) (parse_path path)

-- `strings.Split(path, ".")`, with the part before the next dot in front.
unfoldable pub split_dots : Text → Text → List Text
split_dots part [] = part ∷ []
split_dots part (c ∷ cs) = elim (c == dot) [
  | true ↦ part ∷ split_dots [] cs
  | false ↦ split_dots (part ++ c ∷ []) cs
]

-- The map behind a key, or a new one.
abbrev pub map_at : Option Json → Fields
map_at (some (object fields)) = fields
map_at value = end

-- The loop of setNestedValue. The map that it walks into is a part of the one it came from.
unfoldable pub put_at : List Text → Json → Fields → Fields
put_at [] value current = current
put_at (s ∷ []) value current = put_field s value current
put_at (s ∷ t ∷ rest) value current =
    put_field s (object (put_at (t ∷ rest) value (map_at (get_field s current)))) current

unfoldable pub set_nested_value : Fields → Text → Json → Fields
set_nested_value data_map path value = put_at (split_dots [] path) value data_map
