-- ===== src/Mapping/Expression/Samples.antt =====
-- Natural numbers in place of floats, a small record, and the theorems there.
use durable_integrations.Prelude.{
  ℕ, ◌+◌, ◌-◌, ◌*◌, ◌/◌, ◌≡◌, refl, ◌≢◌, ◌&&◌, ◌||◌, Option, none, some, [], ◌∷◌, ◌++◌, leb, ◌==◌,
  if◌then◌else◌,
}
use durable_integrations.Prelude.Bytes.{Text, bytes}
use durable_integrations.Prelude.Int.{ℤ, pos, negsuc}
use durable_integrations.Prelude.Result.{ok, err}
use durable_integrations.Mapping.Expression.Syntax.{
  Value, number, text, Fields, end, field, Platform, plus, star, out_of_fuel, eof,
  unexpected_character,
}
use durable_integrations.Mapping.Expression.{Engine, parse_expression, combine, add_values, call}
use durable_integrations.Mapping.Expression.Tokens.{
  Unicode, tokenize, evaluate, evaluate_tokens, trim_left, trim_right, tokens_from, next_token,
  scan, string_body, symbol,
}
use durable_integrations.Mapping.Expression.Builtins.{
  Library, builtins, register_func, concat_values, substring, slice, to_string, to_int,
}
use durable_integrations.Mapping.Expression.Trees.{
  Tree, numeral, literal, reference, negative, binary, apply, leaf, also, written, IsProper,
  meaning,
}
use durable_integrations.Mapping.Expression.Meaning.{evaluate_tokens-written}
use durable_integrations.Mapping.Expression.Termination.{evaluate_terminates}

-- The letters, digits and spaces of ASCII.
abbrev ascii : Unicode
ascii = record {
  is_space = λ c. (c == 32) || (c == 9) || (c == 10);
  is_letter = λ c. (leb 65 c && leb c 90) || (leb 97 c && leb c 122);
  is_digit = λ c. leb 48 c && leb c 57;
}

abbrev value_of_digits : ℕ → Text → Option ℕ
value_of_digits n [] = some n
value_of_digits n (c ∷ cs) =
    if leb 48 c && leb c 57 then value_of_digits (n * 10 + (c - 48)) cs else none

abbrev from_int : ℤ → ℕ
from_int (pos n) = n
from_int (negsuc n) = 0

abbrev naturals : Platform ℕ
naturals = record {
  add = λ a b. a + b;
  subtract = λ a b. a - b;
  multiply = λ a b. a * b;
  divide = λ a b. a / b;
  negate = λ a. 0;
  is_zero = λ a. a == 0;
  of_int = from_int;
  parse_float = value_of_digits 0;
  format = λ v. bytes "#";
}

abbrev library : Library ℕ
library = record {
  numbers = naturals;
  unicode = ascii;
  float_text = λ x. (48 + x) ∷ [];
  truncate = pos;
  parse_int = λ t. none;
  to_upper = λ t. t;
  to_lower = λ t. t;
  split_text = λ s sep. s ∷ [];
  replace_all = λ s old new. s;
  match_text = λ s pattern. none;
  now_text = [];
  date_as = λ s layout. none;
  date_utc = λ s. none;
}

abbrev order : Fields ℕ
order = field (bytes "order") (Value.object (field (bytes "qty") (number 4) end)) end

abbrev engine : Engine ℕ
engine = record { numbers = naturals; get_func = builtins library; data_map = order }

sum_of_products : evaluate ascii engine (bytes " 2 * ($.order.qty + 3) - 8 / 4 ") ≡ ok (number 12)
unfolding evaluate tokenize evaluate_tokens parse_expression trim_left trim_right tokens_from
    next_token scan string_body symbol combine add_values call builtins register_func concat_values
    substring slice to_string to_int
sum_of_products = refl

called :
    evaluate ascii engine (bytes "concat('a', $.order.none, substring('hello', 1, 3)) + 5")
    ≡ ok (text (bytes "aell#"))
unfolding evaluate tokenize evaluate_tokens parse_expression trim_left trim_right tokens_from
    next_token scan string_body symbol combine add_values call builtins register_func concat_values
    substring slice to_string to_int
called = refl

-- What follows a complete expression is not looked at.
trailing : evaluate ascii engine (bytes "1 2 3") ≡ ok (number 1)
unfolding evaluate tokenize evaluate_tokens parse_expression trim_left trim_right tokens_from
    next_token scan string_body symbol combine add_values call builtins register_func concat_values
    substring slice to_string to_int
trailing = refl

misplaced : evaluate ascii engine (bytes "1 + %") ≡ err (unexpected_character 37 4)
unfolding evaluate tokenize evaluate_tokens parse_expression trim_left trim_right tokens_from
    next_token scan string_body symbol combine add_values call builtins register_func concat_values
    substring slice to_string to_int
misplaced = refl

-- concat((1 + 2) * -$.order.qty, "x")
abbrev tree : Tree
tree = apply (bytes "concat") (
    also
      (binary star (binary plus (numeral (bytes "1")) (numeral (bytes "2")))
        (negative (reference (bytes "order.qty"))))
      (also (literal (bytes "x")) leaf))

evaluate_tokens-written_example :
    evaluate_tokens engine (written 0 tree ++ eof ∷ []) ≡ meaning engine tree
unfolding IsProper
evaluate_tokens-written_example =
    evaluate_tokens-written engine tree (refl, (((tt, tt), tt), (tt, tt)))

evaluate_terminates_example : evaluate ascii engine (bytes "1 + (2") ≢ err out_of_fuel
evaluate_terminates_example = evaluate_terminates ascii engine (bytes "1 + (2")
