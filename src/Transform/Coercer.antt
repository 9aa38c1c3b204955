-- ===== src/Transform/Coercer.antt =====
-- internal/worker/transform/coercer.go: conversions of values by the names of types. All sizes of int and
-- of float are one each, and a value of another type is known by what fmt prints for it. strconv, strings,
-- fmt and time are parameters; a time is what time.Parse returns.
pub mod Kinds
pub mod Coerced
mod Samples
use durable_integrations.Prelude.{
  Bool, true, false, not, ◌||◌, Option, none, some, List, [], ◌∷◌, ◌++◌, if◌then◌else◌, any,
}
use durable_integrations.Prelude.Bytes.{Text, bytes, eqb}
use durable_integrations.Prelude.Int.{ℤ, pos, eqbℤ}
use durable_integrations.Prelude.Result.{Result, ok, err}

-- `interface{}`
pub data Dynamic {ℓ} (F T : Type ℓ) : Type ℓ where
  nil : Dynamic F T
  string : Text → Dynamic F T
  int : ℤ → Dynamic F T
  float : F → Dynamic F T
  bool : Bool → Dynamic F T
  time : T → Dynamic F T
  other : Text → Dynamic F T

pub record Libraries {ℓ} (F T : Type ℓ) : Type ℓ where
  pub trim_space : Text → Text
  pub to_lower : Text → Text
  pub format : Dynamic F T → Text
  pub format_int : ℤ → Text
  pub format_float : F → Text
  pub parse_int : Text → Option ℤ
  pub parse_float : Text → Option F
  pub parse_bool : Text → Option Bool
  pub truncate : F → ℤ
  pub of_int : ℤ → F
  pub is_zero : F → Bool
  pub parse_time : Text → Text → Option T
  pub unix : ℤ → T
  pub format_time : T → Text

pub data CoerceError : Type 0 where
  no_converter : Text → Text → CoerceError
  cannot_convert : CoerceError
  cannot_parse : Text → CoerceError

abbrev pub CoerceFunc {ℓ} : Type ℓ → Type ℓ → Type ℓ
CoerceFunc F T = Dynamic F T → Result CoerceError (Dynamic F T)

-- The map of converters, as a function of their keys.
abbrev pub Converters {ℓ} : Type ℓ → Type ℓ → Type ℓ
Converters F T = Text → Option (CoerceFunc F T)

abbrev pub coercion_key : Text → Text → Text
coercion_key from to = from ++ bytes "->" ++ to

abbrev pub is_one_of : Text → List Text → Bool
is_one_of t names = any (λ name. eqb t name) names

abbrev pub formats : List Text
formats =
    bytes "2006-01-02T15:04:05Z07:00"
    ∷ bytes "2006-01-02T15:04:05.999999999Z07:00"
    ∷ bytes "2006-01-02T15:04:05"
    ∷ bytes "2006-01-02 15:04:05"
    ∷ bytes "2006-01-02"
    ∷ bytes "Mon, 02 Jan 2006 15:04:05 MST"
    ∷ bytes "Mon, 02 Jan 2006 15:04:05 -0700"
    ∷ []

module _ {ℓ} {F T : Type ℓ} (lib : Libraries F T) where
  unfoldable pub normalize_type : Text → Text
  normalize_type name =
      let t = lib.to_lower (lib.trim_space name) in
      if is_one_of t (bytes "string" ∷ bytes "str" ∷ bytes "text" ∷ bytes "varchar" ∷ [])
      then bytes "string"
      else if is_one_of t
          (bytes "int" ∷ bytes "int32" ∷ bytes "int64" ∷ bytes "integer" ∷ bytes "bigint" ∷ [])
      then bytes "int"
      else if is_one_of t (
          bytes "float"
          ∷ bytes "float32"
          ∷ bytes "float64"
          ∷ bytes "double"
          ∷ bytes "decimal"
          ∷ bytes "number"
          ∷ [])
      then bytes "float"
      else if is_one_of t (bytes "bool" ∷ bytes "boolean" ∷ [])
      then bytes "bool"
      else if is_one_of t (bytes "time" ∷ bytes "timestamp" ∷ bytes "datetime" ∷ bytes "date" ∷ [])
      then bytes "time"
      else t

  -- toString, which always succeeds.
  unfoldable pub to_string : Dynamic F T → Text
  to_string (string t) = t
  to_string v = lib.format v

  unfoldable pub to_int64 : Dynamic F T → Option ℤ
  to_int64 (int i) = some i
  to_int64 (float x) = some (lib.truncate x)
  to_int64 v = none

  unfoldable pub to_float64 : Dynamic F T → Option F
  to_float64 (float x) = some x
  to_float64 (int i) = some (lib.of_int i)
  to_float64 v = none

  unfoldable pub string_to_int : CoerceFunc F T
  string_to_int v =
      let s = lib.trim_space (to_string v) in
      elim (lib.parse_int s) [
        | some i ↦ ok (int i)
        | none ↦ elim (lib.parse_float s) [
          | none ↦ err (cannot_parse s)
          | some x ↦ ok (int (lib.truncate x))
        ]
      ]

  unfoldable pub int_to_string : CoerceFunc F T
  int_to_string v = elim (to_int64 v) [
    | none ↦ ok (string (lib.format v))
    | some i ↦ ok (string (lib.format_int i))
  ]

  unfoldable pub string_to_float : CoerceFunc F T
  string_to_float v = elim (lib.parse_float (lib.trim_space (to_string v))) [
    | none ↦ err (cannot_parse (to_string v))
    | some x ↦ ok (float x)
  ]

  unfoldable pub float_to_string : CoerceFunc F T
  float_to_string v = elim (to_float64 v) [
    | none ↦ ok (string (lib.format v))
    | some x ↦ ok (string (lib.format_float x))
  ]

  unfoldable pub string_to_bool : CoerceFunc F T
  string_to_bool v =
      let s = to_string v in
      let lower = lib.to_lower (lib.trim_space s) in
      elim (lib.parse_bool (lib.trim_space s)) [
        | some b ↦ ok (bool b)
        | none ↦
            if is_one_of lower (bytes "yes" ∷ bytes "y" ∷ bytes "1" ∷ bytes "on" ∷ [])
            then ok (bool true)
            else if is_one_of lower (bytes "no" ∷ bytes "n" ∷ bytes "0" ∷ bytes "off" ∷ [])
            then ok (bool false)
            else err (cannot_parse s)
      ]

  unfoldable pub bool_to_string : CoerceFunc F T
  bool_to_string (bool true) = ok (string (bytes "true"))
  bool_to_string (bool false) = ok (string (bytes "false"))
  bool_to_string v = ok (string (lib.format v))

  -- The loop over the formats, and the integer that stands for a time.
  unfoldable pub first_time : List Text → Text → Result CoerceError (Dynamic F T)
  first_time [] s = elim (lib.parse_int s) [
    | none ↦ err (cannot_parse s)
    | some ts ↦ ok (time (lib.unix ts))
  ]
  first_time (f ∷ fs) s = elim (lib.parse_time f s) [
    | some t ↦ ok (time t)
    | none ↦ first_time fs s
  ]

  unfoldable pub string_to_time : CoerceFunc F T
  string_to_time v = first_time formats (lib.trim_space (to_string v))

  unfoldable pub time_to_string : CoerceFunc F T
  time_to_string (time t) = ok (string (lib.format_time t))
  time_to_string (string t) = ok (string t)
  time_to_string v = ok (string (lib.format v))

  unfoldable pub int_to_float : CoerceFunc F T
  int_to_float v = elim (to_int64 v) [
    | none ↦ err cannot_convert
    | some i ↦ ok (float (lib.of_int i))
  ]

  unfoldable pub float_to_int : CoerceFunc F T
  float_to_int v = elim (to_float64 v) [
    | none ↦ err cannot_convert
    | some x ↦ ok (int (lib.truncate x))
  ]

  unfoldable pub int_to_bool : CoerceFunc F T
  int_to_bool v = elim (to_int64 v) [
    | none ↦ err cannot_convert
    | some i ↦ ok (bool (not (eqbℤ i (pos 0))))
  ]

  unfoldable pub bool_to_int : CoerceFunc F T
  bool_to_int (bool true) = ok (int (pos 1))
  bool_to_int (bool false) = ok (int (pos 0))
  bool_to_int v = err cannot_convert

  unfoldable pub float_to_bool : CoerceFunc F T
  float_to_bool v = elim (to_float64 v) [
    | none ↦ err cannot_convert
    | some x ↦ ok (bool (not (lib.is_zero x)))
  ]

  unfoldable pub bool_to_float : CoerceFunc F T
  bool_to_float (bool true) = ok (float (lib.of_int (pos 1)))
  bool_to_float (bool false) = ok (float (lib.of_int (pos 0)))
  bool_to_float v = err cannot_convert

  abbrev pub builtin_table : List (Text × CoerceFunc F T)
  builtin_table =
      (bytes "string->int", string_to_int)
      ∷ (bytes "int->string", int_to_string)
      ∷ (bytes "string->float", string_to_float)
      ∷ (bytes "float->string", float_to_string)
      ∷ (bytes "string->bool", string_to_bool)
      ∷ (bytes "bool->string", bool_to_string)
      ∷ (bytes "string->time", string_to_time)
      ∷ (bytes "time->string", time_to_string)
      ∷ (bytes "int->float", int_to_float)
      ∷ (bytes "float->int", float_to_int)
      ∷ (bytes "int->bool", int_to_bool)
      ∷ (bytes "bool->int", bool_to_int)
      ∷ (bytes "float->bool", float_to_bool)
      ∷ (bytes "bool->float", bool_to_float)
      ∷ []

  -- The map that a table fills.
  abbrev pub find_converter : List (Text × CoerceFunc F T) → Converters F T
  find_converter [] key = none
  find_converter ((name, convert) ∷ rest) key =
      if eqb key name then some convert else find_converter rest key

  unfoldable pub new_type_coercer : Converters F T
  new_type_coercer key = find_converter builtin_table key

  -- `tc.converters[key] = fn`
  unfoldable pub register_converter : Text → Text → CoerceFunc F T → Converters F T → Converters F T
  register_converter from to convert converters key =
      if eqb key (coercion_key from to) then some convert else converters key

  -- Between types with these names, a value that is not nil.
  unfoldable pub convert_between : Converters F T → Text → Text → CoerceFunc F T
  convert_between converters from to value =
      if eqb from to then ok value else elim (converters (coercion_key from to)) [
        | none ↦ err (no_converter from to)
        | some convert ↦ convert value
      ]

  unfoldable pub coerce : Converters F T → Text → Text → CoerceFunc F T
  coerce converters from_type to_type nil = ok nil
  coerce converters from_type to_type value =
      convert_between converters (normalize_type from_type) (normalize_type to_type) value
