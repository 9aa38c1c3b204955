-- ===== src/Mapping/Visual/Conversion.antt =====
-- A model and its mappings, there and back.
use durable_integrations.Prelude.{
  ◌≡◌, refl, ap, inl, inr, String, true, not, List, [], ◌∷◌, ◌++◌, arith, Bool-cases, if_elim,
}
use durable_integrations.Mapping.Visual.{
  FieldInfo, Connection, VisualMapping, new_visual_mapping, add_source_field, add_dest_field,
  has_field, links, is_linked, connection_id, ConnectReply, connect, disconnect, without_link,
  to_field_mappings, from_field_mappings,
}

pub data Call : Type 0 where
  adds_source adds_dest : FieldInfo → Call
  connects : String → String → String → Call
  disconnects : String → String → Call

unfoldable pub step : Call → VisualMapping → VisualMapping
step (adds_source f) vm = add_source_field f vm
step (adds_dest f) vm = add_dest_field f vm
step (connects source dest transform) vm = (connect source dest transform vm).1
step (disconnects source dest) vm = (disconnect source dest vm).1

unfoldable pub run : List Call → VisualMapping → VisualMapping
run [] vm = vm
run (c ∷ cs) vm = run cs (step c vm)

-- The connection is as `connect` makes it: between fields of the model, under their id.
abbrev pub IsMade : List FieldInfo → List FieldInfo → Connection → Type 0
IsMade sources dests c =
    (has_field sources c.source_field ≡ true)
    × (has_field dests c.dest_field ≡ true)
    × (c.id ≡ connection_id c.source_field c.dest_field)
    × (c.validated ≡ true)

abbrev pub AllMade : List FieldInfo → List FieldInfo → List Connection → Type 0
AllMade sources dests [] = Unit
AllMade sources dests (c ∷ cs) = IsMade sources dests c × AllMade sources dests cs

has_field-append :
    (fs : List FieldInfo) (f : FieldInfo) (path : String)
    → has_field fs path ≡ true
    → has_field (fs ++ f ∷ []) path ≡ true
has_field-append [] f path h = cc
has_field-append (g ∷ fs) f path h = ground (arith, has_field-append fs f path)

module _ (ss ds : List FieldInfo) where
  AllMade-source :
      (f : FieldInfo) (cs : List Connection) → AllMade ss ds cs → AllMade (ss ++ f ∷ []) ds cs
  AllMade-source f [] h = tt
  AllMade-source f (c ∷ cs) ((a, b, d, e), rest) =
      ((has_field-append ss f c.source_field a, b, d, e), AllMade-source f cs rest)

  AllMade-dest :
      (f : FieldInfo) (cs : List Connection) → AllMade ss ds cs → AllMade ss (ds ++ f ∷ []) cs
  AllMade-dest f [] h = tt
  AllMade-dest f (c ∷ cs) ((a, b, d, e), rest) =
      ((a, has_field-append ds f c.dest_field b, d, e), AllMade-dest f cs rest)

  AllMade-append :
      (cs : List Connection) (c : Connection)
      → AllMade ss ds cs
      → IsMade ss ds c
      → AllMade ss ds (cs ++ c ∷ [])
  AllMade-append [] c h m = (m, tt)
  AllMade-append (b ∷ cs) c h m = (h.0, AllMade-append cs c h.1 m)

  AllMade-without_link :
      (source dest : String) (cs : List Connection)
      → AllMade ss ds cs
      → AllMade ss ds (without_link source dest cs)
  unfolding without_link
  AllMade-without_link source dest [] h = tt
  AllMade-without_link source dest (c ∷ cs) h = elim (Bool-cases (links source dest c)) [
    | inl e ↦ rw e h.1
    | inr e ↦ rw e (h.0, AllMade-without_link source dest cs h.1)
  ]

abbrev pub IsWellMade : VisualMapping → Type 0
IsWellMade vm = AllMade vm.source_fields vm.dest_fields vm.connections

-- The model that a call of `connect` leaves.
abbrev Leaves : ConnectReply × VisualMapping → Type 0
Leaves r = IsWellMade r.1

step-IsWellMade : (c : Call) (vm : VisualMapping) → IsWellMade vm → IsWellMade (step c vm)
unfolding step add_source_field add_dest_field connect disconnect
step-IsWellMade (adds_source f) vm h =
    AllMade-source vm.source_fields vm.dest_fields f vm.connections h
step-IsWellMade (adds_dest f) vm h = AllMade-dest vm.source_fields vm.dest_fields f vm.connections h
step-IsWellMade (disconnects source dest) vm h =
    AllMade-without_link vm.source_fields vm.dest_fields source dest vm.connections h
step-IsWellMade (connects source dest transform) vm h =
    if_elim Leaves (not (has_field vm.source_fields source)) _ _ (λ a. h)
      λ a.
        if_elim Leaves (not (has_field vm.dest_fields dest)) _ _ (λ b. h)
          λ b.
            if_elim Leaves (is_linked source dest vm.connections) _ _ (λ c. h)
              λ c.
                AllMade-append vm.source_fields vm.dest_fields vm.connections _ h
                  (ground arith, ground arith, refl, refl)

run-IsWellMade : (cs : List Call) (vm : VisualMapping) → IsWellMade vm → IsWellMade (run cs vm)
unfolding run
run-IsWellMade [] vm h = h
run-IsWellMade (c ∷ cs) vm h = run-IsWellMade cs (step c vm) (step-IsWellMade c vm h)

-- Each connection comes back as it was.
connections_back :
    (vm : VisualMapping) (cs : List Connection)
    → AllMade vm.source_fields vm.dest_fields cs
    → (from_field_mappings (to_field_mappings (record vm { connections = cs })) vm).connections ≡ cs
unfolding from_field_mappings to_field_mappings
connections_back vm [] h = refl
connections_back vm (c ∷ cs) ((a, b, d, e), rest) = ground (arith, connections_back vm cs rest)

-- A model that was built from the empty one by adding fields, connecting and disconnecting is the same
-- after it was turned into field mappings and back.
pub from_field_mappings-to_field_mappings :
    (cs : List Call)
    → let vm = run cs new_visual_mapping in from_field_mappings (to_field_mappings vm) vm ≡ vm
unfolding from_field_mappings to_field_mappings
from_field_mappings-to_field_mappings cs =
    let vm = run cs new_visual_mapping in
    ap (λ list. record vm { connections = list })
      (connections_back vm vm.connections (run-IsWellMade cs new_visual_mapping tt))
