-- ===== src/Transform/Coercer/Samples.antt =====
-- A text that is an integer, and the theorem there.
use durable_integrations.Prelude.{none, some, [], ◌≡◌, refl, if◌then◌else◌}
use durable_integrations.Prelude.Bytes.{bytes, eqb}
use durable_integrations.Prelude.Int.{ℤ, pos, eqbℤ}
use durable_integrations.Prelude.Result.{ok}
use durable_integrations.Transform.Coercer.{
  string, int, Libraries, coerce, convert_between, normalize_type, new_type_coercer, string_to_int,
  to_string,
}
use durable_integrations.Transform.Coercer.Kinds.{a_string, an_int}
use durable_integrations.Transform.Coercer.Coerced.{IsCoerced, coerce-IsCoerced}

abbrev libraries : Libraries ℤ ℤ
libraries = record {
  trim_space = λ t. t;
  to_lower = λ t. t;
  format = λ v. [];
  format_int = λ i. [];
  format_float = λ x. [];
  parse_int = λ t. if eqb t (bytes "7") then some (pos 7) else none;
  parse_float = λ t. none;
  parse_bool = λ t. none;
  truncate = λ x. x;
  of_int = λ i. i;
  is_zero = λ x. eqbℤ x (pos 0);
  parse_time = λ layout t. none;
  unix = λ i. i;
  format_time = λ t. [];
}

text_name : normalize_type libraries (bytes "text") ≡ bytes "string"
unfolding normalize_type
text_name = refl

bigint_name : normalize_type libraries (bytes "bigint") ≡ bytes "int"
unfolding normalize_type
bigint_name = refl

seven :
    coerce libraries
      (new_type_coercer libraries)
      (bytes "text")
      (bytes "bigint")
      (string (bytes "7"))
    ≡ ok (int (pos 7))
unfolding coerce convert_between normalize_type new_type_coercer string_to_int to_string
seven = refl

coerce-IsCoerced_example : IsCoerced libraries a_string an_int (string (bytes "7")) (int (pos 7))
coerce-IsCoerced_example =
    coerce-IsCoerced libraries a_string an_int (bytes "text") (bytes "bigint") (string (bytes "7"))
      (int (pos 7)) text_name bigint_name seven
