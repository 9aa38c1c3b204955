-- ===== src/Transform/Worker.antt =====
-- internal/worker/transform/worker.go: the worker that filters duplicates out of a batch of records and
-- maps what is left. What the mapper makes of a record is a parameter. A context that is not cancelled
-- is assumed. Goroutines write to places of their own, so that their order does not matter.
pub mod Chunks
pub mod Columnar
pub mod Parallel
pub mod Retry
mod Samples
use durable_integrations.Prelude.{
  ℕ, zero, suc, ◌+◌, ◌-◌, ◌*◌, ◌/◌, Bool, true, false, not, ◌||◌, Option, none, some, List, [], ◌∷◌,
  ◌++◌, if◌then◌else◌, ltb, leb, length, take, drop,
}
use durable_integrations.Prelude.Bytes.{Text}
use durable_integrations.Prelude.Result.{Result, ok, err, ◌>>=◌}
use durable_integrations.Sync.Activities.{Record}
use durable_integrations.Transform.Dedup.{Deduplicator, is_duplicate}
use durable_integrations.Transform.Columns.{
  Field, Batch, Codec, new_batch, append_record, to_records,
}

pub data WorkerError : Type 0 where
  append_failed map_failed : ℕ → WorkerError
  convert_failed : WorkerError

-- The loop of deduplicateRecords.
unfoldable pub deduplicate_records : List Record → Deduplicator → List Record × Deduplicator
deduplicate_records [] d = ([], d)
deduplicate_records (rec ∷ recs) d =
    let (duplicate, d') = is_duplicate rec.content d in
    let (unique, last) = deduplicate_records recs d' in
    (if duplicate then unique else rec ∷ unique, last)

-- At least one goroutine.
abbrev pub at_least_one : ℕ → ℕ
at_least_one n = if ltb n 1 then 1 else n

abbrev pub converted : Option (List Text) → Result WorkerError (List Text)
converted none = err convert_failed
converted (some raws) = ok raws

abbrev pub chunk_size : ℕ → ℕ → ℕ
chunk_size n concurrency = at_least_one (n / concurrency)

-- The records behind the filter, if there is one.
abbrev pub filtered : List Record → Option Deduplicator → List Record × Option Deduplicator
filtered recs none = (recs, none)
filtered recs (some d) = let (unique, d') = deduplicate_records recs d in (unique, some d')

-- The first loop of applyMappingsColumnar.
unfoldable pub append_all : Codec → ℕ → List Record → Batch → Result WorkerError Batch
append_all codec i [] b = ok b
append_all codec i (rec ∷ recs) b = elim (append_record codec rec.content b) [
  | none ↦ err (append_failed i)
  | some b' ↦ append_all codec (i + 1) recs b'
]

module _ (codec : Codec) (mapper : Text → Option Text) where
  -- The loop of applyMappingsRowwise.
  unfoldable pub map_rows : ℕ → List Record → Result WorkerError (List Record)
  map_rows i [] = ok []
  map_rows i (rec ∷ recs) = elim (mapper rec.content) [
    | none ↦ err (map_failed i)
    | some content ↦
        map_rows (i + 1) recs >>= λ rest. ok ((record rec { content = content }) ∷ rest)
  ]

  -- The second: the contents that were read back, in the records that they stand for.
  unfoldable pub map_contents : ℕ → List Record → List Text → Result WorkerError (List Record)
  map_contents i (rec ∷ recs) (raw ∷ raws) = elim (mapper raw) [
    | none ↦ err (map_failed i)
    | some content ↦
        map_contents (i + 1) recs raws >>= λ rest. ok ((record rec { content = content }) ∷ rest)
  ]
  map_contents i recs raws = ok []

  unfoldable pub apply_columnar : List Field → List Record → Result WorkerError (List Record)
  apply_columnar schema recs = append_all codec 0 recs (new_batch schema) >>= λ b.
      converted (to_records codec b) >>= λ raws. map_contents 0 recs raws

  -- A schema is used if there is one.
  unfoldable pub apply_slice : Option (List Field) → List Record → Result WorkerError (List Record)
  apply_slice none recs = map_rows 0 recs
  apply_slice (some schema) [] = map_rows 0 []
  apply_slice (some schema) (rec ∷ recs) = apply_columnar schema (rec ∷ recs)

  -- What the goroutines leave, from chunk `i` on.
  unfoldable pub chunk_results :
      Option (List Field) → ℕ → ℕ → ℕ → List Record → List (Result WorkerError (List Record))
  chunk_results schema size i zero recs = []
  chunk_results schema size i (suc chunks) recs =
      apply_slice schema (take size (drop (i * size) recs))
      ∷ chunk_results schema size (i + 1) chunks recs

  unfoldable pub combine :
      List (Result WorkerError (List Record)) → Result WorkerError (List Record)
  combine [] = ok []
  combine (r ∷ results) = r >>= λ recs. combine results >>= λ rest. ok (recs ++ rest)

  unfoldable pub apply_parallel :
      ℕ → Option (List Field) → List Record → Result WorkerError (List Record)
  apply_parallel concurrency schema [] = ok []
  apply_parallel concurrency schema (rec ∷ recs) =
      let n = length (rec ∷ recs) in
      let size = chunk_size n concurrency in
      if leb concurrency 1 || ltb n (concurrency * 2)
      then apply_slice schema (rec ∷ recs)
      else combine (chunk_results schema size 0 ((n + size - 1) / size) (rec ∷ recs))

  -- With mappings or without, and at least one goroutine.
  unfoldable pub process_batch :
      ℕ
      → Bool
      → Option (List Field)
      → List Record
      → Option Deduplicator
      → Result WorkerError (List Record) × Option Deduplicator
  process_batch concurrency has_mappings schema [] dedup = (ok [], dedup)
  process_batch concurrency has_mappings schema (rec ∷ recs) dedup =
      let (unique, dedup') = filtered (rec ∷ recs) dedup in
      (
        if has_mappings then apply_parallel (at_least_one concurrency) schema unique else ok unique,
        dedup',
      )
