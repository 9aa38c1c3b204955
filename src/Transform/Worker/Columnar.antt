-- ===== src/Transform/Worker/Columnar.antt =====
-- Mapping through a batch of columns, record by record.
use durable_integrations.Prelude.{
  ℕ, ◌+◌, Option, none, some, List, [], ◌∷◌, ◌++◌, ◌≡◌, refl, sym, ap, ◌∙◌, subst, inl, inr,
  Option-cases,
}
use mathlib.Core.List.{append_assoc, append-nil}
use durable_integrations.Prelude.Bytes.{Text}
use durable_integrations.Prelude.Result.{Result, ok, err, ◌>>=◌}
use durable_integrations.Sync.Activities.{Record}
use durable_integrations.Transform.Mapper.{Fields, end}
use durable_integrations.Transform.Columns.{
  Field, Batch, Codec, new_batch, append_record, append_row, add_content, to_records,
}
use durable_integrations.Transform.Columns.Selected.{
  AreDistinct, selected, Holds, new_batch-Holds, append_row-Holds, all_selected,
  to_records-all_selected,
}
use durable_integrations.Transform.Worker.{
  WorkerError, map_failed, append_failed, append_all, map_contents, converted, apply_columnar,
}
use durable_integrations.Transform.Worker.Chunks.{
  succeeded, succeeded-add, add_mapped, map_each, in_record,
}

abbrev add_row : Option Fields → Option (List Fields) → Option (List Fields)
add_row none rest = none
add_row (some row) none = none
add_row (some row) (some rows) = some (row ∷ rows)

module _ (codec : Codec) (schema : List Field) where
  -- The rows of the records, if each decodes.
  abbrev rows_of : List Record → Option (List Fields)
  rows_of [] = some []
  rows_of (rec ∷ recs) = add_row (codec.unmarshal rec.content) (rows_of recs)

  abbrev select_row : Option Fields → Option Text
  select_row none = none
  select_row (some row) = codec.marshal (selected schema row end)

  -- The content of a record, reduced to the fields of the schema.
  abbrev pub reduced : Text → Option Text
  reduced content = select_row (codec.unmarshal content)

  abbrev reduced_all : List Record → Option (List Text)
  reduced_all [] = some []
  reduced_all (rec ∷ recs) = add_content (reduced rec.content) (reduced_all recs)

  abbrev selected_rows : Option (List Fields) → Option (List Text)
  selected_rows none = none
  selected_rows (some rows) = all_selected codec schema rows

  add_content-none : (c : Option Text) → add_content c none ≡ none
  add_content-none none = refl
  add_content-none (some t) = refl

  selected_rows-add_row :
      (row : Option Fields) (rows : Option (List Fields))
      → selected_rows (add_row row rows) ≡ add_content (select_row row) (selected_rows rows)
  unfolding all_selected
  selected_rows-add_row none rows = refl
  selected_rows-add_row (some row) none = sym (add_content-none (select_row (some row)))
  selected_rows-add_row (some row) (some rows) = refl

  selected_rows-rows_of : (recs : List Record) → selected_rows (rows_of recs) ≡ reduced_all recs
  unfolding all_selected
  selected_rows-rows_of [] = refl
  selected_rows-rows_of (rec ∷ recs) =
      selected_rows-add_row (codec.unmarshal rec.content) (rows_of recs)
      ∙ ap (add_content (reduced rec.content)) (selected_rows-rows_of recs)

  -- What the loop that appends comes to, for records that have these rows or none.
  abbrev IsAppended : List Fields → Option (List Fields) → Result WorkerError Batch → Type 0
  IsAppended before none r = succeeded r ≡ none
  IsAppended before (some rows) r =
      (b : Batch) × (r ≡ ok b) × (b.schema ≡ schema) × Holds b (before ++ rows)

  IsAppended-add_row :
      (before : List Fields) (row : Fields) (rows : Option (List Fields))
      (r : Result WorkerError Batch)
      → IsAppended (before ++ row ∷ []) rows r
      → IsAppended before (add_row (some row) rows) r
  IsAppended-add_row before row none r h = h
  IsAppended-add_row before row (some rows) r (b, e, s, h) =
      (b, e, s, subst (Holds b) (append_assoc before (row ∷ []) rows) h)

  module _ (i : ℕ) (rec : Record) (recs : List Record) (b : Batch) where
    append_all_stops :
        codec.unmarshal rec.content ≡ none
        → append_all codec i (rec ∷ recs) b ≡ err (append_failed i)
    unfolding append_all append_record
    append_all_stops e = rw (e, append_all) refl

    append_all_goes_on :
        (row : Fields)
        → codec.unmarshal rec.content ≡ some row
        → append_all codec i (rec ∷ recs) b ≡ append_all codec (i + 1) recs (append_row row b)
    unfolding append_all append_record
    append_all_goes_on row e = rw (e, append_all) refl

  append_all-IsAppended :
      (i : ℕ) (recs : List Record) (b : Batch) (before : List Fields)
      → AreDistinct schema
      → b.schema ≡ schema
      → Holds b before
      → IsAppended before (rows_of recs) (append_all codec i recs b)
  unfolding append_all append_row
  append_all-IsAppended i [] b before d s h =
      (b, refl, s, subst (Holds b) (sym (append-nil before)) h)
  append_all-IsAppended i (rec ∷ recs) b before d s h =
      elim (Option-cases (codec.unmarshal rec.content)) [
        | inl e ↦ rw (e, append_all_stops i rec recs b e) refl
        | inr (row, e) ↦
            let kept = append_row-Holds row b before (subst AreDistinct (sym s) d) h in
            let below =
              append_all-IsAppended (i + 1) recs (append_row row b) (before ++ row ∷ []) d s kept in
            let step = IsAppended-add_row before row (rows_of recs) _ below in
            rw (e, append_all_goes_on i rec recs b row e) step
      ]

  module _ (mapper : Text → Option Text) where
    abbrev through : Option Text → Option Text
    through none = none
    through (some raw) = mapper raw

    -- The content of a record through the batch and the mapper.
    abbrev pub reduced_mapped : Text → Option Text
    reduced_mapped content = through (reduced content)

    -- What the loop that maps comes to, for the contents that were read back or none.
    abbrev IsMapped : ℕ → List Record → Option (List Text) → Type 0
    IsMapped i recs none = map_each (in_record reduced_mapped) recs ≡ none
    IsMapped i recs (some raws) =
        succeeded (map_contents codec mapper i recs raws) ≡ map_each (in_record reduced_mapped) recs

    add_mapped-none : (rec : Option Record) → add_mapped rec none ≡ none
    add_mapped-none none = refl
    add_mapped-none (some rec) = refl

    module _ (i : ℕ) (rec : Record) (recs : List Record) (raw : Text) (raws : List Text) where
      map_contents_stops :
          mapper raw ≡ none
          → map_contents codec mapper i (rec ∷ recs) (raw ∷ raws) ≡ err (map_failed i)
      unfolding map_contents
      map_contents_stops e = rw (e, map_contents) refl

      map_contents_goes_on :
          (content : Text)
          → mapper raw ≡ some content
          → succeeded (map_contents codec mapper i (rec ∷ recs) (raw ∷ raws))
            ≡ add_mapped
                (some (record rec { content = content }))
                (succeeded (map_contents codec mapper (i + 1) recs raws))
      unfolding map_contents
      map_contents_goes_on content e =
          rw (e, map_contents)
            (succeeded-add (record rec { content = content })
              (map_contents codec mapper (i + 1) recs raws))

    -- The steps of the induction: the first content, and the contents behind it.
    IsMapped-step :
        (i : ℕ) (rec : Record) (recs : List Record) (first : Option Text)
        (rest : Option (List Text))
        → reduced rec.content ≡ first
        → IsMapped (i + 1) recs rest
        → IsMapped i (rec ∷ recs) (add_content first rest)
    IsMapped-step i rec recs none rest e h =
        let missed : in_record reduced_mapped rec ≡ none = rw (e, in_record) refl in
        ap (λ o. add_mapped o (map_each (in_record reduced_mapped) recs)) missed
    IsMapped-step i rec recs (some raw) none e h =
        ap (add_mapped (in_record reduced_mapped rec)) h
        ∙ add_mapped-none (in_record reduced_mapped rec)
    IsMapped-step i rec recs (some raw) (some raws) e h = elim (Option-cases (mapper raw)) [
      | inl f ↦
          let missed : in_record reduced_mapped rec ≡ none = rw (e, f, in_record) refl in
          ap succeeded (map_contents_stops i rec recs raw raws f)
          ∙ sym (ap (λ o. add_mapped o (map_each (in_record reduced_mapped) recs)) missed)
      | inr (content, f) ↦
          let rec' : Record = record rec { content = content } in
          let made : in_record reduced_mapped rec ≡ some rec' = rw (e, f, in_record) refl in
          map_contents_goes_on i rec recs raw raws content f
          ∙ (ap (add_mapped (some rec')) h
              ∙ ap (λ o. add_mapped o (map_each (in_record reduced_mapped) recs)) (sym made))
    ]

    map_contents-IsMapped : (i : ℕ) (recs : List Record) → IsMapped i recs (reduced_all recs)
    unfolding map_contents
    map_contents-IsMapped i [] = refl
    map_contents-IsMapped i (rec ∷ recs) =
        IsMapped-step i rec recs (reduced rec.content) (reduced_all recs) refl
          (map_contents-IsMapped (i + 1) recs)

    converted-IsMapped :
        (recs : List Record) (raws : Option (List Text))
        → IsMapped 0 recs raws
        → succeeded (converted raws >>= λ contents. map_contents codec mapper 0 recs contents)
          ≡ map_each (in_record reduced_mapped) recs
    converted-IsMapped recs none h = sym h
    converted-IsMapped recs (some raws) h = h

    after_appending :
        (recs : List Record) (rows : Option (List Fields)) (r : Result WorkerError Batch)
        → rows_of recs ≡ rows
        → IsAppended [] rows r
        → succeeded (
            r >>= λ b.
            converted (to_records codec b) >>= λ raws. map_contents codec mapper 0 recs raws)
          ≡ map_each (in_record reduced_mapped) recs
    after_appending recs none (ok b) e h = cc
    after_appending recs none (err failure) e h =
        let nothing = sym (selected_rows-rows_of recs) ∙ ap selected_rows e in
        sym (subst (IsMapped 0 recs) nothing (map_contents-IsMapped 0 recs))
    after_appending recs (some rows) r e (b, made, s, held) =
        let read =
          to_records-all_selected codec b rows held
          ∙ (ap (λ fields. all_selected codec fields rows) s
              ∙ (ap selected_rows (sym e) ∙ selected_rows-rows_of recs)) in
        rw made (
          converted-IsMapped recs (to_records codec b)
            (subst (IsMapped 0 recs) (sym read) (map_contents-IsMapped 0 recs)))

    pub apply_columnar-map_each :
        (recs : List Record)
        → AreDistinct schema
        → succeeded (apply_columnar codec mapper schema recs)
          ≡ map_each (in_record reduced_mapped) recs
    unfolding apply_columnar new_batch
    apply_columnar-map_each recs d =
        after_appending recs (rows_of recs) (append_all codec 0 recs (new_batch schema)) refl
          (append_all-IsAppended 0 recs (new_batch schema) [] d refl (new_batch-Holds schema))
