-- ===== src/Transform/Worker/Parallel.antt =====
-- Mapping in parallel, with a schema and without one.
use durable_integrations.Prelude.{ℕ, Option, none, some, List, [], ◌∷◌, ◌≡◌, refl}
use durable_integrations.Prelude.Bytes.{Text}
use durable_integrations.Sync.Activities.{Record}
use durable_integrations.Transform.Columns.{Field, Codec}
use durable_integrations.Transform.Columns.Selected.{AreDistinct}
use durable_integrations.Transform.Worker.{apply_slice, apply_parallel, map_rows}
use durable_integrations.Transform.Worker.Chunks.{
  succeeded, map_each, in_record, map_rows-map_each, apply_parallel-map_each, IsPointwise,
}
use durable_integrations.Transform.Worker.Columnar.{reduced_mapped, apply_columnar-map_each}

-- The names of a schema, if there is one, differ.
abbrev pub HasDistinctNames : Option (List Field) → Type 0
HasDistinctNames none = Unit
HasDistinctNames (some schema) = AreDistinct schema

module _ (codec : Codec) (mapper : Text → Option Text) where
  -- What becomes of the content of a record: with a schema, it is reduced to its fields first.
  abbrev pub mapped_content : Option (List Field) → Text → Option Text
  mapped_content none = mapper
  mapped_content (some schema) = reduced_mapped codec schema mapper

  apply_slice-map_each :
      (schema : Option (List Field))
      → HasDistinctNames schema
      → IsPointwise codec mapper schema (in_record (mapped_content schema))
  unfolding apply_slice map_rows
  apply_slice-map_each none d recs = map_rows-map_each codec mapper 0 recs
  apply_slice-map_each (some schema) d [] = refl
  apply_slice-map_each (some schema) d (rec ∷ recs) =
      apply_columnar-map_each codec schema mapper (rec ∷ recs) d

  -- With any number of goroutines: if the names of the schema differ, then mapping succeeds exactly if
  -- it does for each record on its own, and returns these in order. With a schema, the content of a
  -- record is first reduced to the fields of the schema that it has and that are not null.
  pub apply_parallel_each :
      (concurrency : ℕ) (schema : Option (List Field)) (recs : List Record)
      → HasDistinctNames schema
      → succeeded (apply_parallel codec mapper concurrency schema recs)
        ≡ map_each (in_record (mapped_content schema)) recs
  apply_parallel_each concurrency schema recs d =
      apply_parallel-map_each codec mapper concurrency schema (in_record (mapped_content schema))
        recs (apply_slice-map_each schema d)
