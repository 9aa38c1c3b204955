-- ===== src/Sync/Activities/Duplicates.antt =====
-- DeduplicateActivity of transform_activities.go, with extractPrimaryKey and navigateFieldPath.
pub mod Repeats
use durable_integrations.Prelude.{
  ℕ, ◌+◌, Bool, true, false, ◌&&◌, Option, none, some, List, [], ◌∷◌, ◌++◌, map, if◌then◌else◌, any,
}
use durable_integrations.Prelude.Bytes.{Text, eqb}
use durable_integrations.Mapping.Expression.Syntax.{Value, null, object, Fields, walk}
use durable_integrations.Sync.Activities.{Record, Libraries, entries}

-- The fields of a configured stream that count here: its name and primary key in the catalog, and the
-- primary key that the user chose.
pub record ConfiguredStream : Type 0 where
  pub name : Text
  pub source_key : List (List Text)
  pub primary_key : List (List Text)

-- `len(pk) > 0`
abbrev pub nonempty : List (List Text) → Option (List (List Text))
nonempty [] = none
nonempty (path ∷ paths) = some (path ∷ paths)

abbrev pub key_paths : ConfiguredStream → Option (List (List Text))
key_paths cs = elim cs.primary_key [
  | [] ↦ nonempty cs.source_key
  | (path ∷ paths) ↦ some (path ∷ paths)
]

-- `streamPKs[stream]`: a later stream of the same name overwrites an earlier one.
unfoldable pub stream_key : List ConfiguredStream → Text → Option (List (List Text))
stream_key [] stream = none
stream_key (cs ∷ rest) stream = elim (stream_key rest stream) [
  | some paths ↦ some paths
  | none ↦ if eqb cs.name stream then key_paths cs else none
]

-- `strings.Join(parts, "|")`
abbrev pub join_bars : List Text → Text
join_bars [] = []
join_bars (part ∷ []) = part
join_bars (part ∷ next ∷ parts) = part ++ 124 ∷ join_bars (next ∷ parts)

-- `key == ""`
abbrev pub unless_empty : Text → Option Text
unless_empty [] = none
unless_empty (c ∷ cs) = some (c ∷ cs)

module _ {ℓ} {F : Type ℓ} where
  abbrev pub navigate_field_path : Fields F → List Text → Value F
  navigate_field_path fields [] = null
  navigate_field_path fields (part ∷ parts) = walk (object fields) (part ∷ parts)

  unfoldable pub extract_primary_key : Libraries F → Text → List (List Text) → Text
  extract_primary_key lib content paths = elim (lib.unmarshal content) [
    | none ↦ []
    | some fields ↦
        join_bars (map (λ path. lib.format (navigate_field_path (entries fields) path)) paths)
  ]

  -- The key under which a record is looked up, if it is.
  unfoldable pub record_key : Libraries F → List ConfiguredStream → Record → Option Text
  record_key lib streams rec = elim (stream_key streams rec.stream) [
    | none ↦ none
    | some paths ↦ unless_empty (extract_primary_key lib rec.content paths)
  ]

-- `seen[stream][key]`
abbrev pub has_seen : List (Text × Text) → Text → Text → Bool
has_seen seen stream key = any (λ (s, k). eqb s stream && eqb k key) seen

pub record Deduplicated : Type 0 where
  pub records : List Record
  pub duplicates_found : ℕ

abbrev pub add_kept : Record → Deduplicated → Deduplicated
add_kept rec out = record out { records = rec ∷ out.records }

module _ {ℓ} {F : Type ℓ} (lib : Libraries F) (streams : List ConfiguredStream) where
  -- The loop over the records, with what it has seen.
  unfoldable pub dedupe_from : List (Text × Text) → List Record → Deduplicated
  dedupe_from seen [] = record { records = []; duplicates_found = 0 }
  dedupe_from seen (rec ∷ recs) = elim (record_key lib streams rec) [
    | none ↦ add_kept rec (dedupe_from seen recs)
    | some key ↦ elim (has_seen seen rec.stream key) [
      | true ↦
          let rest = dedupe_from seen recs in
          record rest { duplicates_found = 1 + rest.duplicates_found }
      | false ↦ add_kept rec (dedupe_from ((rec.stream, key) ∷ seen) recs)
    ]
  ]

  unfoldable pub deduplicate_activity : List Record → Deduplicated
  deduplicate_activity records = dedupe_from [] records
