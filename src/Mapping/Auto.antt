-- ===== src/Mapping/Auto.antt =====
-- internal/mapping/auto/automapper.go: mappings that are suggested for the fields of two schemas. Names
-- are lists of runes. Floating point, the letter cases of unicode and sort.Slice are parameters; the order
-- of a map is that of its entries.
pub mod Distance
pub mod Fields
pub mod Assigned
pub mod Scored
pub mod Matching
mod Samples
use durable_integrations.Prelude.{
  ℕ, ◌+◌, Bool, true, false, ◌||◌, ◌&&◌, not, Option, none, some, List, [], ◌∷◌, ◌++◌, map,
  if◌then◌else◌, ltb, ◌==◌, length, get_or, keep, any,
}
use durable_integrations.Prelude.Bytes.{Text, bytes, eqb}
use durable_integrations.Mapping.Auto.Distance.{levenshtein_distance}

pub record Floats {ℓ} (F : Type ℓ) : Type ℓ where
  pub of_tenths : ℕ → F
  pub of_nat : ℕ → F
  pub add : F → F → F
  pub subtract : F → F → F
  pub multiply : F → F → F
  pub divide : F → F → F
  pub round : F → F
  pub greater : F → F → Bool
  pub at_least : F → F → Bool

pub record FieldMapping {ℓ} (F : Type ℓ) : Type ℓ where
  pub source_field : Text
  pub dest_field : Text
  pub transform : Text
  pub confidence : F
  pub auto_matched : Bool

pub record SchemaField : Type 0 where
  pub path : Text
  pub kind : Text
  pub name : Text

pub record AutoMapper {ℓ} (F : Type ℓ) : Type ℓ where
  pub min_confidence : F
  pub type_weight : F
  pub name_weight : F

-- A pair of a source field and a destination field, by their places.
pub record ScoredPair {ℓ} (F : Type ℓ) : Type ℓ where
  pub src_index : ℕ
  pub dst_index : ℕ
  pub score : F

-- What the name is compared by.
unfoldable pub normalize_name : (ℕ → ℕ) → Text → Text
normalize_name to_lower name =
    map to_lower (keep (λ r. not (r == 95 || r == 45 || r == 46 || r == 32)) name)

-- How many bytes a rune takes in UTF-8.
abbrev pub rune_bytes : ℕ → ℕ
rune_bytes r = if ltb r 128 then 1 else if ltb r 2048 then 2 else if ltb r 65536 then 3 else 4

-- `len` of a string.
abbrev pub byte_length : Text → ℕ
byte_length [] = 0
byte_length (r ∷ runes) = rune_bytes r + byte_length runes

abbrev pub compatible_pairs : List (Text × Text × ℕ)
compatible_pairs =
    (bytes "string", bytes "number", 3)
    ∷ (bytes "number", bytes "string", 5)
    ∷ (bytes "string", bytes "integer", 3)
    ∷ (bytes "integer", bytes "string", 5)
    ∷ (bytes "integer", bytes "number", 9)
    ∷ (bytes "number", bytes "integer", 7)
    ∷ (bytes "boolean", bytes "string", 4)
    ∷ (bytes "string", bytes "boolean", 3)
    ∷ (bytes "boolean", bytes "integer", 3)
    ∷ (bytes "integer", bytes "boolean", 3)
    ∷ []

-- `compatible[key]`, in tenths.
abbrev pub find_pair : List (Text × Text × ℕ) → Text → Text → Option ℕ
find_pair [] src dest = none
find_pair ((a, b, tenths) ∷ rest) src dest =
    if eqb a src && eqb b dest then some tenths else find_pair rest src dest

-- In tenths.
unfoldable pub type_compatibility : Text → Text → ℕ
type_compatibility src dest =
    if eqb src dest
    then 10
    else elim (find_pair compatible_pairs src dest) [ some tenths ↦ tenths | none ↦ 0 ]

unfoldable pub type_coercion_transform : Text → Text → Text
type_coercion_transform src dest =
    if eqb dest (bytes "string")
    then bytes "to_string"
    else if eqb dest (bytes "integer") || eqb dest (bytes "number")
    then if eqb src (bytes "string")
      then bytes "to_float"
      else if eqb dest (bytes "integer")
      then bytes "to_int"
      else bytes "to_float"
    else if eqb dest (bytes "boolean")
    then bytes "to_bool"
    else []

-- A transformation is suggested when both types are given and differ.
abbrev pub suggested : SchemaField → SchemaField → Text
suggested src dest =
    if not (eqb src.kind dest.kind) && not (eqb src.kind []) && not (eqb dest.kind [])
    then type_coercion_transform src.kind dest.kind
    else []

abbrev no_field : SchemaField
no_field = record { path = []; kind = []; name = [] }

-- A place that is used already.
abbrev pub is_used : ℕ → List ℕ → Bool
is_used i used = any (λ j. j == i) used

-- The greedy loop over the sorted pairs: those that are chosen.
unfoldable pub assign {ℓ} :
    {F : Type ℓ} → List ℕ → List ℕ → List (ScoredPair F) → List (ScoredPair F)
assign used_src used_dst [] = []
assign used_src used_dst (p ∷ pairs) =
    elim (is_used p.src_index used_src || is_used p.dst_index used_dst) [
      | true ↦ assign used_src used_dst pairs
      | false ↦ p ∷ assign (p.src_index ∷ used_src) (p.dst_index ∷ used_dst) pairs
    ]

module _ {ℓ} {F : Type ℓ} (floats : Floats F) where
  unfoldable pub new_auto_mapper : AutoMapper F
  new_auto_mapper = record {
    min_confidence = floats.of_tenths 3;
    type_weight = floats.of_tenths 3;
    name_weight = floats.of_tenths 7;
  }

  unfoldable pub name_similarity : (ℕ → ℕ) → Text → Text → F
  name_similarity to_lower a b =
      let na = normalize_name to_lower a in
      let nb = normalize_name to_lower b in
      if eqb na nb
      then floats.of_tenths 10
      else if eqb na [] || eqb nb []
      then floats.of_tenths 0
      else let longer =
          if ltb (byte_length na) (byte_length nb) then byte_length nb else byte_length na in
        floats.subtract (floats.of_tenths 10)
          (floats.divide (floats.of_nat (levenshtein_distance na nb)) (floats.of_nat longer))

  unfoldable pub field_score : (ℕ → ℕ) → AutoMapper F → SchemaField → SchemaField → F
  field_score to_lower am src dest =
      floats.add (floats.multiply am.name_weight (name_similarity to_lower src.name dest.name))
        (floats.multiply am.type_weight (floats.of_tenths (type_compatibility src.kind dest.kind)))

  -- The inner loop over pairs.
  unfoldable pub pairs_with :
      (ℕ → ℕ) → AutoMapper F → ℕ → SchemaField → ℕ → List SchemaField → List (ScoredPair F)
  pairs_with to_lower am si src di [] = []
  pairs_with to_lower am si src di (dest ∷ dests) =
      let score = field_score to_lower am src dest in
      let rest = pairs_with to_lower am si src (di + 1) dests in
      if floats.at_least score am.min_confidence
      then (record { src_index = si; dst_index = di; score = score }) ∷ rest
      else rest

  unfoldable pub pairs_from :
      (ℕ → ℕ) → AutoMapper F → ℕ → List SchemaField → List SchemaField → List (ScoredPair F)
  pairs_from to_lower am si [] dests = []
  pairs_from to_lower am si (src ∷ srcs) dests =
      pairs_with to_lower am si src 0 dests ++ pairs_from to_lower am (si + 1) srcs dests

  unfoldable pub mapping_of : List SchemaField → List SchemaField → ScoredPair F → FieldMapping F
  mapping_of srcs dests p =
      let src = get_or srcs p.src_index no_field in
      let dest = get_or dests p.dst_index no_field in
      record {
        source_field = src.path;
        dest_field = dest.path;
        transform = suggested src dest;
        confidence = floats.round p.score;
        auto_matched = true;
      }

  -- The pairs that are chosen, given a way to sort.
  unfoldable pub chosen_pairs :
      (ℕ → ℕ)
      → (List (ScoredPair F) → List (ScoredPair F))
      → AutoMapper F
      → List SchemaField
      → List SchemaField
      → List (ScoredPair F)
  chosen_pairs to_lower sort am srcs dests =
      assign [] [] (sort (pairs_from to_lower am 0 srcs dests))

  unfoldable pub match_fields :
      (ℕ → ℕ)
      → (List (ScoredPair F) → List (ScoredPair F))
      → AutoMapper F
      → List SchemaField
      → List SchemaField
      → List (FieldMapping F)
  match_fields to_lower sort am srcs dests =
      map (mapping_of srcs dests) (chosen_pairs to_lower sort am srcs dests)
