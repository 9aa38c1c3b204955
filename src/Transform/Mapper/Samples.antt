-- ===== src/Transform/Mapper/Samples.antt =====
-- Paths through a small record, and the theorem there.
use durable_integrations.Prelude.{◌≡◌, refl, true, [], ◌∷◌}
use durable_integrations.Prelude.Bytes.{Text, bytes}
use durable_integrations.Transform.Mapper.{
  null, text, array, object, done, item, Fields, end, field, get_field, put_field, segments_from,
  parse_path, step_down, walk, get_nested_value, split_dots, put_at, set_nested_value,
}
use durable_integrations.Transform.Mapper.Parts.{is_plain}
use durable_integrations.Transform.Mapper.Paths.{diverge, get_nested_value-set_nested_value}

abbrev order : Fields
order =
    field (bytes "items")
      (array (item (object (field (bytes "name") (text (bytes "pen")) end)) done))
      (field (bytes "city") (text (bytes "Bonn")) end)

parts : parse_path (bytes "items[0].name") ≡ bytes "items" ∷ bytes "[0]" ∷ bytes "name" ∷ []
unfolding parse_path segments_from
parts = refl

indexed : get_nested_value order (bytes "items[0].name") ≡ text (bytes "pen")
unfolding get_nested_value parse_path segments_from walk step_down get_field
indexed = refl

out_of_range : get_nested_value order (bytes "items[1].name") ≡ null
unfolding get_nested_value parse_path segments_from walk step_down get_field
out_of_range = refl

-- Brackets in a path that is written are part of a name.
bracket_name :
    set_nested_value end (bytes "a[0].b") null
    ≡ field (bytes "a[0]") (object (field (bytes "b") null end)) end
unfolding set_nested_value split_dots put_at put_field get_field
bracket_name = refl

get_nested_value-set_nested_value_example :
    (get_nested_value (set_nested_value order (bytes "city.name") null) (bytes "city.name") ≡ null)
    × ((other : Text)
        → is_plain other ≡ true
        → diverge (split_dots [] (bytes "city.name")) (split_dots [] other) ≡ true
        → get_nested_value (set_nested_value order (bytes "city.name") null) other
          ≡ get_nested_value order other)
get_nested_value-set_nested_value_example =
    get_nested_value-set_nested_value order (bytes "city.name") null refl
