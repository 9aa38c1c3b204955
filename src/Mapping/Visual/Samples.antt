-- ===== src/Mapping/Visual/Samples.antt =====
-- A small model, and the theorems there.
use durable_integrations.Prelude.{◌≡◌, true, List, [], ◌∷◌}
use durable_integrations.Mapping.Visual.{
  FieldInfo, new_visual_mapping, to_field_mappings, from_field_mappings,
}
use durable_integrations.Mapping.Visual.Conversion.{
  Call, adds_source, adds_dest, connects, run, from_field_mappings-to_field_mappings,
}

abbrev mail : FieldInfo
mail = record {
  path = "mail";
  display_name = "Mail";
  kind = "string";
  required = true;
  description = "";
}

abbrev calls : List Call
calls =
    adds_source mail
    ∷ adds_dest mail
    ∷ connects "mail" "mail" "lower"
    ∷ connects "mail" "name" ""
    ∷ []

from_field_mappings-to_field_mappings_example :
    let vm = run calls new_visual_mapping in from_field_mappings (to_field_mappings vm) vm ≡ vm
from_field_mappings-to_field_mappings_example = from_field_mappings-to_field_mappings calls
