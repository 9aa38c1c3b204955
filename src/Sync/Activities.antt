-- ===== src/Sync/Activities.antt =====
-- internal/orchestration/activities/transform_activities.go: the three activities of the transform
-- phase. This file holds the records that they read and write, and the steps on maps that they share;
-- Renaming.antt is MapFieldsActivity, Coercion.antt CoerceTypesActivity, Duplicates.antt
-- DeduplicateActivity. A map that is only read is a function.
pub mod Renaming
pub mod Coercion
pub mod Duplicates
mod Samples
use durable_integrations.Prelude.{
  ℕ, Bool, true, false, ◌||◌, Option, none, some, List, [], ◌∷◌, ◌≡◌, arith, if◌then◌else◌,
}
use durable_integrations.Prelude.Bytes.{Text, eqb, eqb_iff}
use durable_integrations.Prelude.Int.{ℤ}
use durable_integrations.Mapping.Expression.Syntax.{Value, Fields, end, field, get_field}

pub record Record : Type 0 where
  pub stream : Text
  pub namespace : Text
  pub content : Text
  pub emitted_at : ℤ

pub record FieldMapping : Type 0 where
  pub source_field : Text
  pub dest_field : Text
  pub coerce_type : Text

-- Each keeps the index of the record and its stream, or the field.
pub data Failure : Type 0 where
  unmarshal_failed marshal_failed : ℕ → Text → Failure
  coercion_failed : ℕ → Text → Failure

pub record Output : Type 0 where
  pub records : List Record
  pub errors : List Failure

-- encoding/json, strconv, strings, fmt and time. A nil map, which JSON's null decodes to, is `none`.
-- A time is a count of seconds since 1970, as the format that is written has no fractions.
pub record Libraries {ℓ} (F : Type ℓ) : Type ℓ where
  pub unmarshal : Text → Option (Option (Fields F))
  pub marshal : Option (Fields F) → Option Text
  pub to_lower : Text → Text
  pub format : Value F → Text
  pub format_int : ℤ → Text
  pub format_float : F → Text
  pub parse_int : Text → Option ℤ
  pub parse_float : Text → Option F
  pub parse_bool : Text → Option Bool
  pub truncate : F → ℤ
  pub of_int : ℤ → F
  pub same_float : F → F → Bool
  pub is_zero : F → Bool
  pub parse_time : Text → Text → Option ℤ
  pub format_time : ℤ → Text

module _ {ℓ} {F : Type ℓ} where
  -- A nil map is read like an empty one.
  abbrev pub entries : Option (Fields F) → Fields F
  entries none = end
  entries (some fields) = fields

  -- `data[key] = value`
  unfoldable pub put_field : Text → Value F → Fields F → Fields F
  put_field key value end = field key value end
  put_field key value (field name old rest) =
      let others = put_field key value rest in
      if eqb key name then field name value rest else field name old others

  pub get_field-put_field :
      (key other : Text) (value : Value F) (fields : Fields F)
      → get_field other (put_field key value fields)
        ≡ (if eqb other key then some value else get_field other fields)
  unfolding put_field
  get_field-put_field key other value end = ground arith
  get_field-put_field key other value (field name old rest) =
      let below = get_field-put_field key other value rest in
      ground
        (arith, below, eqb_iff key other, eqb_iff other key, eqb_iff key name, eqb_iff other name)

-- What one record adds to the output: itself, or a complaint.
abbrev pub add_record : Record → Output → Output
add_record rec out = record out { records = rec ∷ out.records }

abbrev pub add_error : Failure → Output → Output
add_error failure out = record out { errors = failure ∷ out.errors }

-- The record with the content that was written for it.
abbrev with_content : Record → Text → Record
with_content rec text = record rec { content = text }

-- What becomes of a record whose new content is marshalled.
abbrev pub add_marshalled : ℕ → Record → Option Text → Output → Output
add_marshalled i rec none out = add_error (marshal_failed i rec.stream) out
add_marshalled i rec (some content) out = add_record (with_content rec content) out
