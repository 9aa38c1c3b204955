-- ===== src/Sync/Phases/Pages.antt =====
-- The extract phase without partitions (extractSequential in workflows/extract.go): what a source serves,
-- page by page.
use durable_integrations.Prelude.{
  ℕ, zero, suc, ◌≡◌, refl, ◌∙◌, sym, subst, ◌↔◌, inl, inr, true, false, String, Option, none, some,
  List, [], ◌++◌, length, Bool-cases, Option-cases,
}
use mathlib.Core.List.{append_assoc}
use durable_integrations.Prelude.Dict.{Dict}
use durable_integrations.Prelude.Result.{Result, ok, err}
use durable_integrations.Sync.Types.{ExtractParams, ExtractResult}
use durable_integrations.Sync.Phases.{
  PhaseError, Fetch, FetchInput, FetchOutput, merge_state, Extracted, extract_sequential,
  extracted_some, more_than_one, extract_workflow, batch_size_or_default,
}

abbrev pub page_input : ℕ → Dict String → FetchInput
page_input size state = record { state = state; batch_size = size; partition = none }

-- From the nth call and a state on, the source serves these records in pages, the last of which says that
-- there are no more, and leaves this state.
pub data Serves (fetch : Fetch) (size : ℕ)
    : ℕ → Dict String → List String → Dict String → Type 0 where
  last_page :
      {n : ℕ} {state : Dict String} (out : FetchOutput)
      → fetch n (page_input size state) ≡ some out
      → out.has_more ≡ false
      → Serves fetch size n state out.records (merge_state state out.new_state)
  next_page :
      {n : ℕ} {state final : Dict String} {rest : List String} (out : FetchOutput)
      → fetch n (page_input size state) ≡ some out
      → out.has_more ≡ true
      → Serves fetch size (suc n) (merge_state state out.new_state) rest final
      → Serves fetch size n state (out.records ++ rest) final

extract_sequential_complete :
    {fetch : Fetch} {size n : ℕ} {state final : Dict String} {rs : List String}
    → Serves fetch size n state rs final
    → (fuel : ℕ) × ((all : List String)
        → extract_sequential fetch fuel size n all state ≡ some (ok (all ++ rs, final)))
unfolding extract_sequential
extract_sequential_complete (last_page out here stops) =
    (1, λ all. rw (here, stops, extract_sequential) refl)
extract_sequential_complete (next_page {rest = rest} out here goes_on later) =
    let (fuel, reads) = extract_sequential_complete later in
    (
      suc fuel,
      λ all.
          rw (here, goes_on, sym (append_assoc all out.records rest), extract_sequential)
            (reads (all ++ out.records)),
    )

abbrev read_to : List String → Dict String → Option Extracted
read_to rs state = some (ok (rs, state))

read_apart : (a b : List String) (c d : Dict String) → read_to a c ≡ read_to b d → (a ≡ b) × (c ≡ d)
read_apart a b c d h = (cc, cc)

extract_sequential_sound :
    (fetch : Fetch) (size fuel n : ℕ) (all records : List String) (state final : Dict String)
    → extract_sequential fetch fuel size n all state ≡ some (ok (records, final))
    → (rs : List String) × (records ≡ all ++ rs) × Serves fetch size n state rs final
unfolding extract_sequential
extract_sequential_sound fetch size zero n all records state final h = cc
extract_sequential_sound fetch size (suc fuel) n all records state final h =
    elim (Option-cases (fetch n (page_input size state))) [
      | inl failed ↦ let bad = rw (failed, extract_sequential) at h in cc
      | inr (out, here) ↦ elim (Bool-cases out.has_more) [
        | inl goes_on ↦
            let (rs, e, later) =
              extract_sequential_sound fetch size fuel (suc n) (all ++ out.records) records
                (merge_state state out.new_state) final
                (rw (here, goes_on, extract_sequential) at h) in
            (
              out.records ++ rs,
              e ∙ append_assoc all out.records rs,
              next_page out here goes_on later,
            )
        | inr stops ↦
            let got : read_to (all ++ out.records) (merge_state state out.new_state)
                ≡ read_to records final =
              rw (here, stops, extract_sequential) at h in
            let (e, f) =
              read_apart (all ++ out.records) records (merge_state state out.new_state) final got in
            (
              out.records,
              sym e,
              subst (λ x. Serves fetch size n state out.records x) f (last_page out here stops),
            )
      ]
    ]

-- The result of a phase that read these records and left this state.
abbrev pub read_result : ExtractParams → List String → Dict String → ExtractResult
read_result params rs final = record {
  records = rs;
  records_count = length rs;
  new_state = merge_state params.state final;
  partitions_used = 1;
}

result_of :
    (a b : ExtractResult)
    → ◌≡◌ {A = Option (Result PhaseError ExtractResult)} (some (ok a)) (some (ok b))
    → a ≡ b
result_of a b h = cc

sequential_result :
    (params : ExtractParams) (r : Option Extracted) (result : ExtractResult)
    → extracted_some params r ≡ some (ok result)
    → (rs : List String) × (final : Dict String) × (r ≡ some (ok (rs, final)))
      × (result ≡ read_result params rs final)
sequential_result params none result h = cc
sequential_result params (some (err e)) result h = cc
sequential_result params (some (ok (rs, final))) result h =
    (rs, final, refl, sym (result_of (read_result params rs final) result h))

-- Without at least two partitions, the phase ends with a result exactly if the source serves its pages
-- up to a last one from the state of the parameters. The result holds their records in order, the
-- number of them, and the state merged with what the pages left.
pub extract_workflow_iff :
    (fetch : Fetch) (partitions : Option (List String)) (params : ExtractParams)
    (result : ExtractResult)
    → more_than_one partitions ≡ none
    → ((fuel : ℕ) × (extract_workflow fetch partitions fuel params ≡ some (ok result))) ↔ (
        (rs : List String) × (final : Dict String) × Serves fetch
          (batch_size_or_default params.batch_size)
          0
          params.state
          rs
          final
        × (result ≡ read_result params rs final))
unfolding extract_workflow
extract_workflow_iff fetch partitions params result single =
    let size = batch_size_or_default params.batch_size in
    (
      λ (fuel, h).
          let run = extract_sequential fetch fuel size 0 [] params.state in
          let (rs, final, reads, e) =
            sequential_result params run result (rw (single, extract_workflow) at h) in
          let (more, same, serves) =
            extract_sequential_sound fetch size fuel 0 [] rs params.state final reads in
          (rs, final, subst (λ x. Serves fetch size 0 params.state x final) (sym same) serves, e),
      λ (rs, final, serves, e).
          let (fuel, reads) = extract_sequential_complete serves in
          (fuel, rw (single, reads [], e, extract_workflow) refl),
    )
