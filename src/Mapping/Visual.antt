-- ===== src/Mapping/Visual.antt =====
-- internal/mapping/visual/model.go: fields, connections between them, and their check. The confidence
-- of a mapping, which is always 1.0 here, is left out.
pub mod Conversion
mod Samples
use text.Mathlib.Text.{◌==◌ as str_eq}
use durable_integrations.Prelude.{
  String, Bool, true, false, not, ◌&&◌, ◌||◌, Option, none, some, List, [], ◌∷◌, ◌++◌, map,
  if◌then◌else◌, any, keep,
}
use durable_integrations.Prelude.Text.{concat}

pub record FieldInfo : Type 0 where
  pub path : String
  pub display_name : String
  pub kind : String
  pub required : Bool
  pub description : String

pub record Connection : Type 0 where
  pub id : String
  pub source_field : String
  pub dest_field : String
  pub transform : String
  pub validated : Bool

-- auto.FieldMapping
pub record FieldMapping : Type 0 where
  pub source_field : String
  pub dest_field : String
  pub transform : String
  pub auto_matched : Bool

pub record VisualMapping : Type 0 where
  pub source_fields : List FieldInfo
  pub dest_fields : List FieldInfo
  pub connections : List Connection

abbrev pub new_visual_mapping : VisualMapping
new_visual_mapping = record { source_fields = []; dest_fields = []; connections = [] }

unfoldable pub add_source_field : FieldInfo → VisualMapping → VisualMapping
add_source_field f vm = record vm { source_fields = vm.source_fields ++ f ∷ [] }

unfoldable pub add_dest_field : FieldInfo → VisualMapping → VisualMapping
add_dest_field f vm = record vm { dest_fields = vm.dest_fields ++ f ∷ [] }

-- hasSourceField and hasDestField
abbrev pub has_field : List FieldInfo → String → Bool
has_field fields path = any (λ f. str_eq f.path path) fields

-- The connection is the one between these fields.
abbrev pub links : String → String → Connection → Bool
links source dest c = str_eq c.source_field source && str_eq c.dest_field dest

-- There is a connection between these fields.
unfoldable pub is_linked : String → String → List Connection → Bool
is_linked source dest cs = any (links source dest) cs

abbrev pub connection_id : String → String → String
connection_id source dest = concat source (concat "->" dest)

pub data ConnectReply : Type 0 where
  connected no_source no_dest already_connected : ConnectReply

unfoldable pub connect : String → String → String → VisualMapping → ConnectReply × VisualMapping
connect source dest transform vm =
    if not (has_field vm.source_fields source)
    then (no_source, vm)
    else if not (has_field vm.dest_fields dest)
    then (no_dest, vm)
    else if is_linked source dest vm.connections
    then (already_connected, vm)
    else (
      connected,
      record vm {
        connections =
            vm.connections
            ++ record {
              id = connection_id source dest;
              source_field = source;
              dest_field = dest;
              transform = transform;
              validated = true;
            }
              ∷ [];
      },
    )

-- Without the first connection between these fields.
unfoldable pub without_link : String → String → List Connection → List Connection
without_link source dest [] = []
without_link source dest (c ∷ cs) =
    let rest = without_link source dest cs in if links source dest c then cs else c ∷ rest

unfoldable pub disconnect : String → String → VisualMapping → Bool × VisualMapping
disconnect source dest vm = (
  is_linked source dest vm.connections,
  record vm { connections = without_link source dest vm.connections },
)

unfoldable pub to_field_mappings : VisualMapping → List FieldMapping
to_field_mappings vm =
    map
      (λ c. record {
        source_field = c.source_field;
        dest_field = c.dest_field;
        transform = c.transform;
        auto_matched = false;
      })
      vm.connections

unfoldable pub from_field_mappings : List FieldMapping → VisualMapping → VisualMapping
from_field_mappings mappings vm = record vm {
  connections =
      map
        (λ m. record {
          id = connection_id m.source_field m.dest_field;
          source_field = m.source_field;
          dest_field = m.dest_field;
          transform = m.transform;
          validated =
              has_field vm.source_fields m.source_field && has_field vm.dest_fields m.dest_field;
        })
        mappings;
}

-- `srcIndex[path]`: the last field of that path counts.
unfoldable pub find_field : String → List FieldInfo → Option FieldInfo
find_field path [] = none
find_field path (f ∷ fs) = elim (find_field path fs) [
  | some later ↦ some later
  | none ↦ if str_eq f.path path then some f else none
]

pub data Complaint : Type 0 where
  unmapped_required no_such_source no_such_dest many_sources type_mismatch : Complaint

pub record ValidationError : Type 0 where
  pub connection_id : String
  pub field : String
  pub complaint : Complaint

abbrev pub when : Bool → ValidationError → List ValidationError
when true e = e ∷ []
when false e = []

-- `destUsed[path]`, and `connectedDest[path]`.
abbrev pub uses_dest : List Connection → String → Bool
uses_dest cs path = any (λ c. str_eq c.dest_field path) cs

unfoldable pub required_errors : List Connection → List FieldInfo → List ValidationError
required_errors cs [] = []
required_errors cs (f ∷ fs) =
    when (f.required && not (uses_dest cs f.path))
      (record { connection_id = ""; field = f.path; complaint = unmapped_required })
    ++ required_errors cs fs

abbrev pub kind_of : Option FieldInfo → String
kind_of none = ""
kind_of (some f) = f.kind

-- Both fields have a type, the types differ, and nothing converts between them.
abbrev pub mismatches : VisualMapping → Connection → Bool
mismatches vm c =
    let source_kind = kind_of (find_field c.source_field vm.source_fields) in
    let dest_kind = kind_of (find_field c.dest_field vm.dest_fields) in
    not (str_eq source_kind "")
    && not (str_eq dest_kind "")
    && not (str_eq source_kind dest_kind)
    && str_eq c.transform ""

-- The flag of a connection after its check.
abbrev pub still_validated : VisualMapping → Connection → Bool
still_validated vm c =
    c.validated
    && has_field vm.source_fields c.source_field
    && has_field vm.dest_fields c.dest_field

-- One round of the loop over the connections, behind those in `earlier`.
unfoldable pub connection_errors :
    VisualMapping → List Connection → Connection → List ValidationError
connection_errors vm earlier c =
    when (not (has_field vm.source_fields c.source_field))
      (record { connection_id = c.id; field = c.source_field; complaint = no_such_source })
    ++ when (not (has_field vm.dest_fields c.dest_field))
        (record { connection_id = c.id; field = c.dest_field; complaint = no_such_dest })
    ++ when (uses_dest earlier c.dest_field)
        (record { connection_id = c.id; field = c.dest_field; complaint = many_sources })
    ++ when (still_validated vm c && mismatches vm c)
        (record { connection_id = c.id; field = c.source_field; complaint = type_mismatch })

unfoldable pub all_connection_errors :
    VisualMapping → List Connection → List Connection → List ValidationError
all_connection_errors vm earlier [] = []
all_connection_errors vm earlier (c ∷ cs) =
    connection_errors vm earlier c ++ all_connection_errors vm (earlier ++ c ∷ []) cs

-- The errors, and the model with its flags.
unfoldable pub validate : VisualMapping → List ValidationError × VisualMapping
validate vm =
    let checked : Connection → Connection = λ c. record c { validated = still_validated vm c } in
    (
      required_errors vm.connections vm.dest_fields ++ all_connection_errors vm [] vm.connections,
      record vm { connections = map checked vm.connections },
    )

unfoldable pub unmapped_source_fields : VisualMapping → List FieldInfo
unmapped_source_fields vm =
    keep (λ f. not (any (λ c. str_eq c.source_field f.path) vm.connections)) vm.source_fields

unfoldable pub unmapped_dest_fields : VisualMapping → List FieldInfo
unmapped_dest_fields vm = keep (λ f. not (uses_dest vm.connections f.path)) vm.dest_fields
