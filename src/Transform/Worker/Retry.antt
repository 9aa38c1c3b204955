-- ===== src/Transform/Worker/Retry.antt =====
-- A batch that is processed again.
use durable_integrations.Prelude.{
  ℕ, Bool, true, false, Option, some, List, [], ◌∷◌, ◌≡◌, refl, ap, ◌∙◌, if◌then◌else◌,
}
use durable_integrations.Prelude.Bytes.{Text}
use durable_integrations.Prelude.Result.{ok}
use durable_integrations.Sync.Activities.{Record}
use durable_integrations.Transform.Dedup.{Deduplicator, is_duplicate, contains}
use durable_integrations.Transform.Dedup.Seen.{
  IsSound, is_duplicate-contains, is_duplicate-IsSound, contains-is_duplicate,
  contains-is_duplicate_self,
}
use durable_integrations.Transform.Columns.{Field, Codec}
use durable_integrations.Transform.Worker.{
  deduplicate_records, at_least_one, apply_parallel, process_batch,
}

abbrev AreSeen : List Record → Deduplicator → Type 0
AreSeen [] d = Unit
AreSeen (rec ∷ recs) d = (contains rec.content d ≡ true) × AreSeen recs d

-- The filter after the records.
abbrev after : List Record → Deduplicator → Deduplicator
after recs d = (deduplicate_records recs d).1

contains-after :
    (key : Text) (recs : List Record) (d : Deduplicator)
    → IsSound d
    → contains key d ≡ true
    → (contains key (after recs d) ≡ true) × IsSound (after recs d)
unfolding deduplicate_records
contains-after key [] d s h = (h, s)
contains-after key (rec ∷ recs) d s h =
    contains-after key recs (is_duplicate rec.content d).1 (is_duplicate-IsSound rec.content d s)
      (contains-is_duplicate key rec.content d s h)

after-AreSeen : (recs : List Record) (d : Deduplicator) → IsSound d → AreSeen recs (after recs d)
unfolding deduplicate_records
after-AreSeen [] d s = tt
after-AreSeen (rec ∷ recs) d s =
    let d' = (is_duplicate rec.content d).1 in
    let s' = is_duplicate-IsSound rec.content d s in
    (
      (contains-after rec.content recs d' s' (contains-is_duplicate_self rec.content d s)).0,
      after-AreSeen recs d' s',
    )

AreSeen-is_duplicate :
    (recs : List Record) (key : Text) (d : Deduplicator)
    → IsSound d
    → AreSeen recs d
    → AreSeen recs (is_duplicate key d).1
AreSeen-is_duplicate [] key d s h = tt
AreSeen-is_duplicate (rec ∷ recs) key d s (a, h) =
    (contains-is_duplicate rec.content key d s a, AreSeen-is_duplicate recs key d s h)

deduplicate_records-seen :
    (recs : List Record) (d : Deduplicator)
    → IsSound d
    → AreSeen recs d
    → (deduplicate_records recs d).0 ≡ []
unfolding deduplicate_records
deduplicate_records-seen [] d s h = refl
deduplicate_records-seen (rec ∷ recs) d s (a, h) =
    let e = is_duplicate-contains rec.content d ∙ a in
    rw e (
      deduplicate_records-seen recs (is_duplicate rec.content d).1
        (is_duplicate-IsSound rec.content d s) (AreSeen-is_duplicate recs rec.content d s h))

after-IsSound : (recs : List Record) (d : Deduplicator) → IsSound d → IsSound (after recs d)
unfolding deduplicate_records
after-IsSound [] d s = s
after-IsSound (rec ∷ recs) d s =
    after-IsSound recs (is_duplicate rec.content d).1 (is_duplicate-IsSound rec.content d s)

module _ (codec : Codec) (mapper : Text → Option Text) where
  nothing_left :
      (concurrency : ℕ) (mapped : Bool) (schema : Option (List Field))
      → (if mapped then apply_parallel codec mapper concurrency schema [] else ok []) ≡ ok []
  unfolding apply_parallel
  nothing_left concurrency true schema = refl
  nothing_left concurrency false schema = refl

  -- After a batch was processed with a filter, whether that succeeded or failed, the same records
  -- processed again give no records and no error.
  pub process_batch_again :
      (concurrency concurrency' : ℕ) (mapped mapped' : Bool) (schema schema' : Option (List Field))
      (recs : List Record) (d : Deduplicator)
      → IsSound d
      → (process_batch codec mapper concurrency' mapped' schema' recs
          (process_batch codec mapper concurrency mapped schema recs (some d)).1).0
        ≡ ok []
  unfolding process_batch
  process_batch_again c c' m m' schema schema' [] d s = refl
  process_batch_again c c' m m' schema schema' (rec ∷ recs) d s =
      let d' = after (rec ∷ recs) d in
      let gone =
        deduplicate_records-seen (rec ∷ recs) d' (after-IsSound (rec ∷ recs) d s)
          (after-AreSeen (rec ∷ recs) d s) in
      ap (λ xs. if m' then apply_parallel codec mapper (at_least_one c') schema' xs else ok xs) gone
      ∙ nothing_left (at_least_one c') m' schema'
