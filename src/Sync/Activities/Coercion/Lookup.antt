-- ===== src/Sync/Activities/Coercion/Lookup.antt =====
-- The coercions of a stream, as a lookup of fields.
use durable_integrations.Prelude.{
  ◌&&◌, not, Option, none, some, List, [], ◌∷◌, ◌≡◌, refl, arith, if◌then◌else◌, Bool-cases, inl,
  inr,
}
use durable_integrations.Prelude.Bytes.{Text, eqb, eqb_iff}
use durable_integrations.Sync.Activities.{FieldMapping}
use durable_integrations.Sync.Activities.Coercion.{put_coercion, coercions_from}

abbrev pub find_coercion : Text → List (Text × Text) → Option Text
find_coercion key [] = none
find_coercion key ((name, target) ∷ rest) =
    if eqb key name then some target else find_coercion key rest

-- No field stands there twice.
abbrev pub HasOneEach : List (Text × Text) → Type 0
HasOneEach [] = Unit
HasOneEach ((name, target) ∷ rest) = (find_coercion name rest ≡ none) × HasOneEach rest

find_coercion-put_coercion :
    (key target other : Text) (cs : List (Text × Text))
    → find_coercion other (put_coercion key target cs)
      ≡ (if eqb other key then some target else find_coercion other cs)
unfolding put_coercion
find_coercion-put_coercion key target other [] = ground arith
find_coercion-put_coercion key target other ((name, old) ∷ rest) =
    let below = find_coercion-put_coercion key target other rest in
    ground
      (arith, below, eqb_iff key other, eqb_iff other key, eqb_iff key name, eqb_iff other name)

put_coercion-HasOneEach :
    (key target : Text) (cs : List (Text × Text))
    → HasOneEach cs
    → HasOneEach (put_coercion key target cs)
unfolding put_coercion
put_coercion-HasOneEach key target [] h = (refl, tt)
put_coercion-HasOneEach key target ((name, old) ∷ rest) h =
    let below = put_coercion-HasOneEach key target rest h.1 in
    let found = find_coercion-put_coercion key target name rest in
    elim (Bool-cases (eqb key name)) [
      | inl e ↦ rw e h
      | inr e ↦ rw e (ground (arith, eqb_iff key name, eqb_iff name key), below)
    ]

-- The last mapping to a field that asks for a type.
abbrev pub last_type : List FieldMapping → Text → Option Text
last_type [] key = none
last_type (m ∷ mappings) key = elim (last_type mappings key) [
  | some target ↦ some target
  | none ↦ if eqb key m.dest_field && not (eqb m.coerce_type []) then some m.coerce_type else none
]

pub find_coercion-coercions_from :
    (mappings : List FieldMapping) (cs : List (Text × Text)) (key : Text)
    → find_coercion key (coercions_from mappings cs)
      ≡ elim (last_type mappings key) [ some target ↦ some target | none ↦ find_coercion key cs ]
unfolding coercions_from
find_coercion-coercions_from [] cs key = ground arith
find_coercion-coercions_from (m ∷ mappings) cs key =
    let cs' = if eqb m.coerce_type [] then cs else put_coercion m.dest_field m.coerce_type cs in
    ground (
      arith,
      find_coercion-coercions_from mappings cs' key,
      find_coercion-put_coercion m.dest_field m.coerce_type key cs,
    )

pub coercions_from-HasOneEach :
    (mappings : List FieldMapping) (cs : List (Text × Text))
    → HasOneEach cs
    → HasOneEach (coercions_from mappings cs)
unfolding coercions_from
coercions_from-HasOneEach [] cs h = h
coercions_from-HasOneEach (m ∷ mappings) cs h = elim (Bool-cases (eqb m.coerce_type [])) [
  | inl e ↦ rw e (coercions_from-HasOneEach mappings cs h)
  | inr e ↦ rw e (
      coercions_from-HasOneEach mappings _
        (put_coercion-HasOneEach m.dest_field m.coerce_type cs h))
]
