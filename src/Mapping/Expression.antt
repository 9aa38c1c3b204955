-- ===== src/Mapping/Expression.antt =====
-- internal/mapping/expression/engine.go: expressions over a record. This file holds the parser, which
-- evaluates while it reads; Syntax.antt the values and tokens, Tokens.antt the tokenizer and Evaluate,
-- Builtins.antt the functions that an engine knows. Trees.antt describes expressions as trees. Floating
-- point and the format of `%v` are parameters.
pub mod Syntax
pub mod Tokens
pub mod Builtins
pub mod Steps
pub mod Fuel
pub mod Reading
pub mod Trees
pub mod Printed
pub mod Meaning
pub mod Termination
mod Samples
use durable_integrations.Prelude.{
  ℕ, zero, suc, Bool, true, false, ◌||◌, Option, none, some, List, [], ◌∷◌, ◌++◌, if◌then◌else◌,
}
use durable_integrations.Prelude.Bytes.{Text, bytes, eqb}
use durable_integrations.Prelude.Int.{ℤ}
use durable_integrations.Prelude.Result.{Result, ok, err, ◌>>=◌}
use durable_integrations.Mapping.Expression.Syntax.{
  Complaint, Fields, Operator, Platform, Token, Value, accept_comma, accept_lparen, accept_minus,
  accept_product, accept_rparen, accept_sum, array, as_text, boolean, cannot_add, cannot_calculate,
  cannot_negate, cannot_subtract, comma, division_by_zero, eof, failed, field_token, ident, integer,
  invalid_number, keyword, lparen, minus, no_call, null, number, number_token, object, operator,
  out_of_fuel, plus, resolve_field, rparen, slash, star, string_token, text, unclosed,
  unclosed_call, unexpected, unknown_function,
}

-- What an expression is evaluated with: the numbers, the engine's functions by name, and the record.
pub record Engine {ℓ} (F : Type ℓ) : Type ℓ where
  pub numbers : Platform F
  pub get_func : Text → Option (List (Value F) → Result Text (Value F))
  pub data_map : Fields F

-- A value and the tokens behind what was read.
abbrev pub Parsed {ℓ} : Type ℓ → Type ℓ
Parsed A = Result Complaint (A × List Token)

module _ {ℓ} {F : Type ℓ} (engine : Engine F) where
  abbrev pub to_float : Value F → Option F
  to_float null = some (engine.numbers.of_int (ℤ.pos 0))
  to_float (boolean true) = some (engine.numbers.of_int (ℤ.pos 1))
  to_float (boolean false) = some (engine.numbers.of_int (ℤ.pos 0))
  to_float (number x) = some x
  to_float (integer n) = some (engine.numbers.of_int n)
  to_float (text t) = engine.numbers.parse_float t
  to_float (array items) = none
  to_float (object fields) = none

  -- Two operands as numbers, or the complaint that one is none.
  abbrev pub with_floats :
      Complaint
      → Value F
      → Value F
      → (F → F → Result Complaint (Value F))
      → Result Complaint (Value F)
  with_floats complaint a b f = elim (to_float a) [
    | none ↦ err complaint
    | some x ↦ elim (to_float b) [ none ↦ err complaint | some y ↦ f x y ]
  ]

  -- `%v` of a value that is no text.
  abbrev pub shown : Value F → Text
  shown v = elim (as_text v) [ some t ↦ t | none ↦ engine.numbers.format v ]

  unfoldable pub add_values : Value F → Value F → Result Complaint (Value F)
  add_values a b = elim (as_text a) [
    | some s ↦ ok (text (s ++ shown b))
    | none ↦ elim (as_text b) [
      | some t ↦ ok (text (shown a ++ t))
      | none ↦ with_floats cannot_add a b (λ x y. ok (number (engine.numbers.add x y)))
    ]
  ]

  unfoldable pub combine : Operator → Value F → Value F → Result Complaint (Value F)
  combine plus a b = add_values a b
  combine minus a b =
      with_floats cannot_subtract a b (λ x y. ok (number (engine.numbers.subtract x y)))
  combine star a b =
      with_floats cannot_calculate a b (λ x y. ok (number (engine.numbers.multiply x y)))
  combine slash a b = with_floats cannot_calculate a b λ x y.
      if engine.numbers.is_zero y
      then err division_by_zero
      else ok (number (engine.numbers.divide x y))

  unfoldable pub negate_value : Value F → Result Complaint (Value F)
  negate_value v = elim (to_float v) [
    | none ↦ err cannot_negate
    | some x ↦ ok (number (engine.numbers.negate x))
  ]

  unfoldable pub call : Text → List (Value F) → Result Complaint (Value F)
  call name args = elim (engine.get_func name) [
    | none ↦ err (unknown_function name)
    | some f ↦ elim (f args) [ err message ↦ err (failed message) | ok v ↦ ok v ]
  ]

  -- The value, and the tokens behind the parenthesis that must follow.
  abbrev pub closing : Complaint → List Token → Result Complaint (Value F) → Parsed (Value F)
  closing complaint ts result = elim (accept_rparen ts) [
    | none ↦ err complaint
    | some rest ↦ result >>= λ v. ok (v, rest)
  ]

  unfoldable mutual
    pub parse_expression : ℕ → List Token → Parsed (Value F)
    parse_expression zero ts = err out_of_fuel
    parse_expression (suc fuel) ts = parse_term fuel ts >>= λ (left, rest). sum_loop fuel left rest

    -- The loop of parseExpression.
    pub sum_loop : ℕ → Value F → List Token → Parsed (Value F)
    sum_loop zero left ts = err out_of_fuel
    sum_loop (suc fuel) left ts = elim (accept_sum ts) [
      | none ↦ ok (left, ts)
      | some (op, more) ↦ parse_term fuel more >>= λ (right, rest).
          combine op left right >>= λ v. sum_loop fuel v rest
    ]

    pub parse_term : ℕ → List Token → Parsed (Value F)
    parse_term zero ts = err out_of_fuel
    parse_term (suc fuel) ts = parse_unary fuel ts >>= λ (left, rest). product_loop fuel left rest

    -- The loop of parseTerm.
    pub product_loop : ℕ → Value F → List Token → Parsed (Value F)
    product_loop zero left ts = err out_of_fuel
    product_loop (suc fuel) left ts = elim (accept_product ts) [
      | none ↦ ok (left, ts)
      | some (op, more) ↦ parse_unary fuel more >>= λ (right, rest).
          combine op left right >>= λ v. product_loop fuel v rest
    ]

    pub parse_unary : ℕ → List Token → Parsed (Value F)
    parse_unary zero ts = err out_of_fuel
    parse_unary (suc fuel) ts = elim (accept_minus ts) [
      | none ↦ parse_primary fuel ts
      | some more ↦ parse_primary fuel more >>= λ (v, rest). negate_value v >>= λ w. ok (w, rest)
    ]

    pub parse_primary : ℕ → List Token → Parsed (Value F)
    parse_primary zero ts = err out_of_fuel
    parse_primary (suc fuel) [] = err (unexpected eof)
    parse_primary (suc fuel) (number_token t ∷ ts) = elim (engine.numbers.parse_float t) [
      | none ↦ err (invalid_number t)
      | some x ↦ ok (number x, ts)
    ]
    parse_primary (suc fuel) (string_token t ∷ ts) = ok (text t, ts)
    parse_primary (suc fuel) (field_token path ∷ ts) = ok (resolve_field engine.data_map path, ts)
    parse_primary (suc fuel) (ident name ∷ ts) = elim (keyword {F = F} name) [
      | some v ↦ ok (v, ts)
      | none ↦ parse_call fuel name ts
    ]
    parse_primary (suc fuel) (lparen ∷ ts) =
        parse_expression fuel ts >>= λ (v, rest). closing unclosed rest (ok v)
    parse_primary (suc fuel) (operator o ∷ ts) = err (unexpected (operator o))
    parse_primary (suc fuel) (rparen ∷ ts) = err (unexpected rparen)
    parse_primary (suc fuel) (comma ∷ ts) = err (unexpected comma)
    parse_primary (suc fuel) (eof ∷ ts) = err (unexpected eof)

    -- What follows the name of a function.
    pub parse_call : ℕ → Text → List Token → Parsed (Value F)
    parse_call zero name ts = err out_of_fuel
    parse_call (suc fuel) name ts = elim (accept_lparen ts) [
      | none ↦ err (no_call name)
      | some more ↦ elim (accept_rparen more) [
        | some rest ↦ call name [] >>= λ v. ok (v, rest)
        | none ↦ parse_args fuel [] more >>= λ (args, rest).
            closing (unclosed_call name) rest (call name args)
      ]
    ]

    -- The loop over the arguments.
    pub parse_args : ℕ → List (Value F) → List Token → Parsed (List (Value F))
    parse_args zero args ts = err out_of_fuel
    parse_args (suc fuel) args ts = parse_expression fuel ts >>= λ (v, rest).
        elim (accept_comma rest) [
          | none ↦ ok (args ++ v ∷ [], rest)
          | some more ↦ parse_args fuel (args ++ v ∷ []) more
        ]
