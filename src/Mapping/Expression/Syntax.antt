-- ===== src/Mapping/Expression/Syntax.antt =====
-- The values of expressions and of records, the tokens, the complaints, and the tests on the next token.
use durable_integrations.Prelude.{
  ℕ, Bool, true, false, ◌||◌, Option, none, some, List, [], ◌∷◌, ◌++◌, ◌==◌, if◌then◌else◌,
}
use durable_integrations.Prelude.Bytes.{Text, bytes, eqb}
use durable_integrations.Prelude.Int.{ℤ}

mutual
  -- `interface{}`: what JSON decodes to, and the integers of a Go program.
  pub data Value {ℓ} (F : Type ℓ) : Type ℓ where
    null : Value F
    boolean : Bool → Value F
    number : F → Value F
    integer : ℤ → Value F
    text : Text → Value F
    array : Items F → Value F
    object : Fields F → Value F

  -- `[]interface{}`
  pub data Items {ℓ} (F : Type ℓ) : Type ℓ where
    done : Items F
    item : Value F → Items F → Items F

  -- `map[string]interface{}`
  pub data Fields {ℓ} (F : Type ℓ) : Type ℓ where
    end : Fields F
    field : Text → Value F → Fields F → Fields F

-- float64, strconv.ParseFloat, and `%v`.
pub record Platform {ℓ} (F : Type ℓ) : Type ℓ where
  pub add : F → F → F
  pub subtract : F → F → F
  pub multiply : F → F → F
  pub divide : F → F → F
  pub negate : F → F
  pub is_zero : F → Bool
  pub of_int : ℤ → F
  pub parse_float : Text → Option F
  pub format : Value F → Text

pub data Operator : Type 0 where
  plus minus star slash : Operator

pub data Token : Type 0 where
  number_token string_token field_token ident : Text → Token
  operator : Operator → Token
  lparen rparen comma eof : Token

pub data Complaint : Type 0 where
  empty_expression unterminated_string out_of_fuel : Complaint
  unexpected_character : ℕ → ℕ → Complaint
  cannot_add cannot_subtract cannot_calculate cannot_negate division_by_zero : Complaint
  invalid_number no_call unclosed_call unknown_function failed : Text → Complaint
  unclosed : Complaint
  unexpected : Token → Complaint

-- `strings.Split(path, ".")`, with the part before the next dot in front.
abbrev pub split_dots : Text → Text → List Text
split_dots part [] = part ∷ []
split_dots part (c ∷ cs) = elim (c == 46) [
  | true ↦ part ∷ split_dots [] cs
  | false ↦ split_dots (part ++ c ∷ []) cs
]

module _ {ℓ} {F : Type ℓ} where
  abbrev pub get_field : Text → Fields F → Option (Value F)
  get_field key end = none
  get_field key (field name value rest) = if eqb key name then some value else get_field key rest

  -- A missing key is `nil`, and so is what lies below something that is no map.
  abbrev pub walk : Value F → List Text → Value F
  walk v [] = v
  walk (object fields) (part ∷ parts) = elim (get_field part fields) [
    | some v ↦ walk v parts
    | none ↦ null
  ]
  walk v (part ∷ parts) = null

  abbrev pub resolve_field : Fields F → Text → Value F
  resolve_field fields path = walk (object fields) (split_dots [] path)

  -- `v.(string)`
  abbrev pub as_text : Value F → Option Text
  as_text (text t) = some t
  as_text v = none

  -- The words that are no functions.
  abbrev pub keyword : Text → Option (Value F)
  keyword name =
      if eqb name (bytes "true")
      then some (boolean true)
      else if eqb name (bytes "false")
      then some (boolean false)
      else if eqb name (bytes "null") || eqb name (bytes "nil")
      then some null
      else none

-- `peek` and, if it is the token asked for, `advance`.
abbrev pub accept_lparen : List Token → Option (List Token)
accept_lparen (lparen ∷ ts) = some ts
accept_lparen ts = none

abbrev pub accept_rparen : List Token → Option (List Token)
accept_rparen (rparen ∷ ts) = some ts
accept_rparen ts = none

abbrev pub accept_comma : List Token → Option (List Token)
accept_comma (comma ∷ ts) = some ts
accept_comma ts = none

abbrev pub accept_minus : List Token → Option (List Token)
accept_minus (operator minus ∷ ts) = some ts
accept_minus ts = none

abbrev pub accept_sum : List Token → Option (Operator × List Token)
accept_sum (operator plus ∷ ts) = some (plus, ts)
accept_sum (operator minus ∷ ts) = some (minus, ts)
accept_sum ts = none

abbrev pub accept_product : List Token → Option (Operator × List Token)
accept_product (operator star ∷ ts) = some (star, ts)
accept_product (operator slash ∷ ts) = some (slash, ts)
accept_product ts = none
