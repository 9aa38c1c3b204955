-- ===== src/Mapping/Expression/Builtins.antt =====
-- registerBuiltins with toBool, toString and toInt, and RegisterFunc. What comes from strings, strconv,
-- regexp and time is a parameter; a slice out of its bounds, which panics, is an error here.
use durable_integrations.Prelude.{
  ◌^◌, ℕ, ◌-◌, Bool, true, false, not, ◌&&◌, Option, none, some, List, [], ◌∷◌, ◌++◌, leb, ltb,
  if◌then◌else◌, length, take, drop,
}
use durable_integrations.Prelude.Bytes.{Text, bytes, eqb}
use durable_integrations.Prelude.Int.{ℤ, pos, negsuc, ◌+ℤ◌, eqbℤ}
use durable_integrations.Prelude.Result.{Result, ok, err}
use durable_integrations.Mapping.Expression.Syntax.{
  Value, null, boolean, number, integer, text, array, object, Items, done, item, end, Platform,
}
use durable_integrations.Mapping.Expression.{Engine, to_float}
use durable_integrations.Mapping.Expression.Tokens.{Unicode, trim_left, trim_right}

pub record Library {ℓ} (F : Type ℓ) : Type ℓ where
  pub numbers : Platform F
  pub unicode : Unicode
  -- strconv.FormatInt of a whole number, strconv.FormatFloat of another.
  pub float_text : F → Text
  -- int64(x)
  pub truncate : F → ℤ
  pub parse_int : Text → Option ℤ
  pub to_upper : Text → Text
  pub to_lower : Text → Text
  pub split_text : Text → Text → List Text
  pub replace_all : Text → Text → Text → Text
  pub match_text : Text → Text → Option Bool
  pub now_text : Text
  -- parseFlexibleDate, and the date in a layout of convertDateFormat or as RFC 3339.
  pub date_as : Text → Text → Option Text
  pub date_utc : Text → Option Text

-- A function of the engine: `ExprFunc`.
abbrev pub ExprFunc {ℓ} : Type ℓ → Type ℓ
ExprFunc F = List (Value F) → Result Text (Value F)

-- `e.funcs`
abbrev pub Functions {ℓ} : Type ℓ → Type ℓ
Functions F = Text → Option (ExprFunc F)

unfoldable pub register_func {ℓ} : {F : Type ℓ} → Text → ExprFunc F → Functions F → Functions F
register_func name f funcs other = if eqb name other then some f else funcs other

module _ {ℓ} {F : Type ℓ} where
  abbrev pub list_items : List Text → Items F
  list_items [] = done
  list_items (t ∷ ts) = item (text t) (list_items ts)

  -- The first argument that is neither `nil` nor the empty string.
  unfoldable pub coalesce : ExprFunc F
  coalesce [] = ok null
  coalesce (null ∷ rest) = coalesce rest
  coalesce (text [] ∷ rest) = coalesce rest
  coalesce (v ∷ rest) = ok v

  unfoldable pub if_null : ExprFunc F
  if_null (null ∷ other ∷ []) = ok other
  if_null (v ∷ other ∷ []) = ok v
  if_null args = err (bytes "if_null requires 2 arguments")

module _ {ℓ} {F : Type ℓ} (lib : Library F) where
  unfoldable pub to_string : Value F → Text
  to_string null = []
  to_string (text t) = t
  to_string (number x) = lib.float_text x
  to_string (boolean true) = bytes "true"
  to_string (boolean false) = bytes "false"
  to_string (integer n) = lib.numbers.format (integer n)
  to_string (array items) = lib.numbers.format (array items)
  to_string (object fields) = lib.numbers.format (object fields)

  unfoldable pub to_bool : Value F → Bool
  to_bool null = false
  to_bool (boolean b) = b
  to_bool (number x) = not (lib.numbers.is_zero x)
  to_bool (integer n) = not (eqbℤ n (pos 0))
  to_bool (text t) = not (eqb t []) && not (eqb t (bytes "false")) && not (eqb t (bytes "0"))
  to_bool (array items) = true
  to_bool (object fields) = true

  unfoldable pub to_int : Value F → Option ℤ
  to_int null = some (pos 0)
  to_int (boolean true) = some (pos 1)
  to_int (boolean false) = some (pos 0)
  to_int (number x) = some (lib.truncate x)
  to_int (integer n) = some n
  to_int (text t) = lib.parse_int t
  to_int (array items) = none
  to_int (object fields) = none

  unfoldable pub concat_values : List (Value F) → Text
  concat_values [] = []
  concat_values (v ∷ vs) = to_string v ++ concat_values vs

  -- strings.Join of the items' texts.
  unfoldable pub join_items : Text → Items F → Text
  join_items sep done = []
  join_items sep (item v done) = to_string v
  join_items sep (item v rest) = to_string v ++ sep ++ join_items sep rest

  -- A function of one text.
  abbrev pub on_text : Text → (Text → Result Text (Value F)) → ExprFunc F
  on_text complaint f (v ∷ []) = f (to_string v)
  on_text complaint f args = err complaint

  -- A function of two texts.
  abbrev pub on_texts : Text → (Text → Text → Result Text (Value F)) → ExprFunc F
  on_texts complaint f (v ∷ w ∷ []) = f (to_string v) (to_string w)
  on_texts complaint f args = err complaint

  -- `start < 0` becomes 0.
  abbrev pub clamp : ℤ → ℕ
  clamp (pos n) = n
  clamp (negsuc n) = 0

  -- What 64 bits keep of a sum of a position and an int.
  abbrev pub wrapped : ℤ → ℤ
  wrapped (pos n) = if ltb n (2 ^ 63) then pos n else negsuc (2 ^ 64 - n - 1)
  wrapped (negsuc n) = negsuc n

  -- `runes[start:end]` with `end = start + length` in 64 bits, not behind the last rune.
  unfoldable pub slice : Text → ℕ → ℤ → Result Text (Value F)
  slice runes start len = elim (wrapped (pos start +ℤ len)) [
    | negsuc n ↦ err (bytes "slice bounds out of range")
    | pos stop ↦
        if ltb stop start
        then err (bytes "slice bounds out of range")
        else ok (text (take (stop - start) (drop start runes)))
  ]

  unfoldable pub substring : ExprFunc F
  substring (v ∷ from ∷ []) = elim (to_int from) [
    | none ↦ err (bytes "substring start")
    | some start ↦
        if leb (length (to_string v)) (clamp start)
        then ok (text [])
        else ok (text (drop (clamp start) (to_string v)))
  ]
  substring (v ∷ from ∷ len ∷ []) = elim (to_int from) [
    | none ↦ err (bytes "substring start")
    | some start ↦
        if leb (length (to_string v)) (clamp start) then ok (text []) else elim (to_int len) [
          | none ↦ err (bytes "substring length")
          | some count ↦ slice (to_string v) (clamp start) count
        ]
  ]
  substring args = err (bytes "substring requires 2-3 arguments")

  unfoldable pub replace : ExprFunc F
  replace (s ∷ old ∷ new ∷ []) =
      ok (text (lib.replace_all (to_string s) (to_string old) (to_string new)))
  replace args = err (bytes "replace requires 3 arguments")

  unfoldable pub join : ExprFunc F
  join (array items ∷ sep ∷ []) = ok (text (join_items (to_string sep) items))
  join args = err (bytes "join requires 2 arguments (array, separator)")

  -- The text of a date, or that it is none.
  abbrev pub dated : Option Text → Result Text (Value F)
  dated none = err (bytes "cannot parse")
  dated (some t) = ok (text t)

  unfoldable pub parse_date : ExprFunc F
  parse_date (v ∷ []) = dated (lib.date_utc (to_string v))
  parse_date (v ∷ layout ∷ []) = dated (lib.date_utc (to_string v))
  parse_date args = err (bytes "parse_date requires 1-2 arguments")

  abbrev pub to_int_func : ExprFunc F
  to_int_func (v ∷ []) = elim (to_int v) [
    | none ↦ err (bytes "to_int")
    | some n ↦ ok (number (lib.numbers.of_int n))
  ]
  to_int_func args = err (bytes "to_int requires 1 argument")

  abbrev pub to_bool_func : ExprFunc F
  to_bool_func (v ∷ []) = ok (boolean (to_bool v))
  to_bool_func args = err (bytes "to_bool requires 1 argument")

  abbrev pub matched : Option Bool → Result Text (Value F)
  matched none = err (bytes "regex_match: invalid pattern")
  matched (some b) = ok (boolean b)

  abbrev pub trim : Text → Text
  trim t = trim_right lib.unicode (trim_left lib.unicode t)

  -- An engine of these numbers, for what needs nothing else of it.
  abbrev pub bare_engine : Engine F
  bare_engine = record { numbers = lib.numbers; get_func = λ name. none; data_map = end }

  abbrev pub to_float_func : ExprFunc F
  to_float_func (v ∷ []) = elim (to_float bare_engine v) [
    | none ↦ err (bytes "to_float")
    | some x ↦ ok (number x)
  ]
  to_float_func args = err (bytes "to_float requires 1 argument")

  unfoldable pub builtins : Functions F
  builtins =
      register_func (bytes "concat") (λ args. ok (text (concat_values args)))
        (register_func (bytes "upper")
          (on_text (bytes "upper requires 1 argument") (λ t. ok (text (lib.to_upper t))))
          (register_func (bytes "lower")
            (on_text (bytes "lower requires 1 argument") (λ t. ok (text (lib.to_lower t))))
            (register_func (bytes "trim")
              (on_text (bytes "trim requires 1 argument") (λ t. ok (text (trim t))))
              (register_func (bytes "split")
                (on_texts (bytes "split requires 2 arguments")
                  (λ s sep. ok (array (list_items (lib.split_text s sep)))))
                (register_func (bytes "join") join (
                  register_func (bytes "coalesce") coalesce (
                    register_func (bytes "if_null") if_null (
                      register_func (bytes "to_string")
                        (on_text (bytes "to_string requires 1 argument") (λ t. ok (text t)))
                        (register_func (bytes "to_int") to_int_func (
                          register_func (bytes "to_float") to_float_func (
                            register_func (bytes "to_bool") to_bool_func (
                              register_func (bytes "now") (λ args. ok (text lib.now_text))
                                (register_func (bytes "format_date")
                                  (on_texts (bytes "format_date requires 2 arguments")
                                    (λ s layout. dated (lib.date_as s layout)))
                                  (register_func (bytes "parse_date") parse_date (
                                    register_func (bytes "substring") substring (
                                      register_func (bytes "replace") replace (
                                        register_func (bytes "regex_match")
                                          (on_texts (bytes "regex_match requires 2 arguments")
                                            (λ s pattern. matched (lib.match_text s pattern)))
                                          (λ name. none))))))))))))))))))
