-- ===== src/Transform/Columns.antt =====
-- pkg/arrow/buffer.go: a batch of records in columns. The map from names to columns is a function, and
-- encoding/json a parameter; a nil map is read like an empty one.
pub mod Selected
use durable_integrations.Prelude.{
  ℕ, zero, suc, ◌+◌, Bool, true, false, Option, none, some, List, [], ◌∷◌, ◌++◌, if◌then◌else◌,
  get_or,
}
use durable_integrations.Prelude.Bytes.{Text, eqb}
use durable_integrations.Transform.Mapper.{Json, null, Fields, end, get_field, put_field}

pub data DataType : Type 0 where
  bool_type int32_type int64_type float64_type string_type binary_type timestamp_type json_type :
      DataType

pub record Field : Type 0 where
  pub name : Text
  pub kind : DataType
  pub nullable : Bool

-- The values with what says which of them are null.
pub record Column : Type 0 where
  pub values : List Json
  pub nulls : List Bool

pub record Batch : Type 0 where
  pub columns : Text → Column
  pub row_count : ℕ
  pub schema : List Field

pub record Codec : Type 0 where
  pub unmarshal : Text → Option Fields
  pub marshal : Fields → Option Text

unfoldable pub new_batch : List Field → Batch
new_batch schema = record {
  columns = λ name. record { values = []; nulls = [] };
  row_count = 0;
  schema = schema;
}

-- A value that is there and not null.
abbrev pub present : Option Json → Option Json
present none = none
present (some null) = none
present (some v) = some v

abbrev pub push : Option Json → Column → Column
push none col = record { values = col.values ++ null ∷ []; nulls = col.nulls ++ true ∷ [] }
push (some v) col = record { values = col.values ++ v ∷ []; nulls = col.nulls ++ false ∷ [] }

-- The loop over the fields of the schema.
unfoldable pub append_fields : List Field → Fields → (Text → Column) → Text → Column
append_fields [] row columns = columns
append_fields (f ∷ fields) row columns = append_fields fields row (λ name.
    if eqb name f.name
    then push (present (get_field f.name row)) (columns f.name)
    else columns name)

unfoldable pub append_row : Fields → Batch → Batch
append_row row b = record b {
  columns = append_fields b.schema row b.columns;
  row_count = b.row_count + 1;
}

unfoldable pub append_record : Codec → Text → Batch → Option Batch
append_record codec content b = elim (codec.unmarshal content) [
  | none ↦ none
  | some row ↦ some (append_row row b)
]

-- The inner loop of ToRecords, with the row so far.
unfoldable pub row_at : List Field → (Text → Column) → ℕ → Fields → Fields
row_at [] columns i row = row
row_at (f ∷ fields) columns i row = row_at fields columns i (
    if get_or (columns f.name).nulls i true
    then row
    else put_field f.name (get_or (columns f.name).values i null) row)

abbrev pub add_content : Option Text → Option (List Text) → Option (List Text)
add_content none rest = none
add_content (some content) none = none
add_content (some content) (some contents) = some (content ∷ contents)

-- The outer loop, for `rows` more values of `i`.
unfoldable pub records_from : Codec → Batch → ℕ → ℕ → Option (List Text)
records_from codec b i zero = some []
records_from codec b i (suc rows) =
    let rest = records_from codec b (i + 1) rows in
    add_content (codec.marshal (row_at b.schema b.columns i end)) rest

unfoldable pub to_records : Codec → Batch → Option (List Text)
to_records codec b = records_from codec b 0 b.row_count
