-- ===== src/Transform/Worker/Samples.antt =====
-- Three records, mapped in chunks and filtered, and the theorems there.
use durable_integrations.Prelude.{
  String, true, false, Option, none, some, List, [], ◌∷◌, ◌≡◌, refl, arith, if◌then◌else◌,
}
use durable_integrations.Prelude.Bytes.{Text, bytes, eqb}
use durable_integrations.Prelude.Int.{pos}
use durable_integrations.Prelude.Result.{ok, err}
use durable_integrations.Sync.Activities.{Record}
use durable_integrations.Transform.Mapper.{text, end, field, get_field}
use durable_integrations.Transform.Dedup.{Deduplicator, new_deduplicator}
use durable_integrations.Transform.Columns.{Field, Codec, string_type}
use durable_integrations.Transform.Worker.{
  apply_parallel, process_batch, map_failed, chunk_results, combine, apply_slice, map_rows,
}
use durable_integrations.Transform.Worker.Chunks.{succeeded, map_each, in_record}
use durable_integrations.Transform.Worker.Parallel.{mapped_content, apply_parallel_each}
use durable_integrations.Transform.Worker.Retry.{process_batch_again}

-- A text that is the value of the one field "id".
abbrev codec : Codec
codec = record {
  unmarshal = λ t. some (field (bytes "id") (text t) end);
  marshal =
      λ fields. elim (get_field (bytes "id") fields) [ (some (text t)) ↦ some t | v ↦ some [] ];
}

abbrev mapper : Text → Option Text
mapper t = if eqb t (bytes "bad") then none else some (bytes "x")

abbrev schema : List Field
schema = record { name = bytes "id"; kind = string_type; nullable = false } ∷ []

abbrev rec : String → Record
rec content = record {
  stream = bytes "users";
  namespace = [];
  content = bytes content;
  emitted_at = pos 0;
}

abbrev recs : List Record
recs = rec "a" ∷ rec "b" ∷ rec "c" ∷ rec "bad" ∷ rec "d" ∷ []

-- The record that fails is the fourth, and the second of its chunk.
misplaced : apply_parallel codec mapper 2 none recs ≡ err (map_failed 1)
unfolding apply_parallel chunk_results combine apply_slice map_rows
misplaced = refl

apply_parallel_each_example :
    succeeded (apply_parallel codec mapper 2 (some schema) recs)
    ≡ map_each (in_record (mapped_content codec mapper (some schema))) recs
apply_parallel_each_example = apply_parallel_each codec mapper 2 (some schema) recs (refl, tt)

abbrev filter : Deduplicator
filter = new_deduplicator 1 3

process_batch_again_example :
    (process_batch codec mapper 2 true none recs
      (process_batch codec mapper 2 true none recs (some filter)).1).0
    ≡ ok []
unfolding new_deduplicator
process_batch_again_example =
    process_batch_again codec mapper 2 2 true true none none recs filter (omega arith, refl)
