-- ===== src/Transform/Worker/Chunks.antt =====
-- Mapping in chunks and mapping at once.
use native.Mathlib.Nat.{div-add-mod', mod-lt}
use durable_integrations.Prelude.{
  ℕ, zero, suc, ◌+◌, ◌-◌, ◌*◌, ◌/◌, ◌≤◌, ◌<◌, ◌||◌, Option, none, some, List, [], ◌∷◌, ◌++◌, ◌≡◌,
  refl, sym, ap, ◌∙◌, inl, inr, arith, ltb, leb, length, take, drop, take-append-drop, Option-cases,
  if_elim,
}
use durable_integrations.Prelude.Bytes.{Text}
use durable_integrations.Prelude.Result.{Result, ok, err, ◌>>=◌}
use durable_integrations.Sync.Activities.{Record}
use durable_integrations.Transform.Columns.{Field, Codec}
use durable_integrations.Transform.Worker.{
  WorkerError, map_rows, apply_slice, chunk_results, combine, chunk_size, apply_parallel,
}

-- The result, if there is one.
abbrev pub succeeded {ℓ} : {A : Type ℓ} → Result WorkerError A → Option A
succeeded (ok a) = some a
succeeded (err e) = none

abbrev pub add_mapped : Option Record → Option (List Record) → Option (List Record)
add_mapped none rest = none
add_mapped (some rec) none = none
add_mapped (some rec) (some recs) = some (rec ∷ recs)

-- Each record on its own.
abbrev pub map_each : (Record → Option Record) → List Record → Option (List Record)
map_each f [] = some []
map_each f (rec ∷ recs) = add_mapped (f rec) (map_each f recs)

abbrev joined : Option (List Record) → Option (List Record) → Option (List Record)
joined none ys = none
joined (some xs) none = none
joined (some xs) (some ys) = some (xs ++ ys)

map_each-append :
    (f : Record → Option Record) (xs ys : List Record)
    → map_each f (xs ++ ys) ≡ joined (map_each f xs) (map_each f ys)
map_each-append f [] ys = ground arith
map_each-append f (x ∷ xs) ys = ground (arith, map_each-append f xs ys)

-- The content that the function makes, in the record.
abbrev pub in_record : (Text → Option Text) → Record → Option Record
in_record f rec = elim (f rec.content) [
  | none ↦ none
  | some content ↦ some (record rec { content = content })
]

pub succeeded-add :
    (rec : Record) (r : Result WorkerError (List Record))
    → succeeded (r >>= λ rest. ok (rec ∷ rest)) ≡ add_mapped (some rec) (succeeded r)
succeeded-add rec (ok recs) = refl
succeeded-add rec (err e) = refl

succeeded-joined :
    (r s : Result WorkerError (List Record))
    → succeeded (r >>= λ recs. s >>= λ rest. ok (recs ++ rest)) ≡ joined (succeeded r) (succeeded s)
succeeded-joined (ok recs) (ok rest) = refl
succeeded-joined (ok recs) (err e) = refl
succeeded-joined (err e) s = refl

drop_nil : (n : ℕ) → drop {A = Record} n [] ≡ []
drop_nil zero = refl
drop_nil (suc n) = refl

drop-drop : (n m : ℕ) (xs : List Record) → drop n (drop m xs) ≡ drop (m + n) xs
drop-drop n zero xs = let same : n ≡ 0 + n = omega arith in ap (λ k. drop k xs) same
drop-drop n (suc m) [] = drop_nil n ∙ sym (drop_nil (suc m + n))
drop-drop n (suc m) (x ∷ xs) =
    let same : suc (m + n) ≡ suc m + n = omega arith in
    drop-drop n m xs ∙ ap (λ k. drop k (x ∷ xs)) same

length-drop : (n : ℕ) (xs : List Record) → length (drop n xs) ≡ length xs - n
length-drop zero xs = omega arith
length-drop (suc n) [] = omega arith
length-drop (suc n) (x ∷ xs) = omega (arith, length-drop n xs)

nil_of : (xs : List Record) → length xs ≤ 0 → xs ≡ []
nil_of [] h = refl
nil_of (x ∷ xs) h = elim h [ ]

enough_chunks : (n size : ℕ) → 0 < size → n ≤ (n + size - 1) / size * size
enough_chunks n size h = omega (arith, div-add-mod' (n + size - 1) size, mod-lt (n + size - 1) h)

chunk_size_positive : (n concurrency : ℕ) → 0 < chunk_size n concurrency
chunk_size_positive n concurrency = ground arith

module _ (codec : Codec) (mapper : Text → Option Text) where
  pub map_rows-map_each :
      (i : ℕ) (recs : List Record)
      → succeeded (map_rows codec mapper i recs) ≡ map_each (in_record mapper) recs
  unfolding map_rows
  map_rows-map_each i [] = refl
  map_rows-map_each i (rec ∷ recs) = elim (Option-cases (mapper rec.content)) [
    | inl e ↦
        let missed : in_record mapper rec ≡ none = rw (e, in_record) refl in
        rw (e, map_rows) (sym (ap (λ o. add_mapped o (map_each (in_record mapper) recs)) missed))
    | inr (content, e) ↦
        let rec' : Record = record rec { content = content } in
        let made : in_record mapper rec ≡ some rec' = rw (e, in_record) refl in
        rw (e, map_rows)
          (succeeded-add rec' (map_rows codec mapper (i + 1) recs)
            ∙ (ap (add_mapped (some rec')) (map_rows-map_each (i + 1) recs)
                ∙ ap (λ o. add_mapped o (map_each (in_record mapper) recs)) (sym made)))
  ]

  -- A slice is mapped record by record.
  abbrev pub IsPointwise : Option (List Field) → (Record → Option Record) → Type 0
  IsPointwise schema f =
      (recs : List Record) → succeeded (apply_slice codec mapper schema recs) ≡ map_each f recs

  combine-map_each :
      (schema : Option (List Field)) (f : Record → Option Record) (size i chunks : ℕ)
      (recs : List Record)
      → IsPointwise schema f
      → length (drop (i * size) recs) ≤ chunks * size
      → succeeded (combine codec mapper (chunk_results codec mapper schema size i chunks recs))
        ≡ map_each f (drop (i * size) recs)
  unfolding combine chunk_results
  combine-map_each schema f size i zero recs p h =
      ap (map_each f) (sym (nil_of (drop (i * size) recs) (omega arith)))
  combine-map_each schema f size i (suc chunks) recs p h =
      let rs = drop (i * size) recs in
      let next : (i + 1) * size ≡ i * size + size = omega arith in
      let there : drop ((i + 1) * size) recs ≡ drop size rs =
        ap (λ k. drop k recs) next ∙ sym (drop-drop size (i * size) recs) in
      let few : length (drop ((i + 1) * size) recs) ≤ chunks * size =
        omega (arith, ap length there, length-drop size rs) in
      let first = p (take size rs) in
      let later =
        combine-map_each schema f size (i + 1) chunks recs p few ∙ ap (map_each f) there in
      succeeded-joined (apply_slice codec mapper schema (take size rs))
        (combine codec mapper (chunk_results codec mapper schema size (i + 1) chunks recs))
      ∙ (ap
            (λ o. joined o (
              succeeded (
                combine codec mapper (chunk_results codec mapper schema size (i + 1) chunks recs))))
            first
          ∙ (ap (joined (map_each f (take size rs))) later
              ∙ (sym (map_each-append f (take size rs) (drop size rs))
                  ∙ ap (map_each f) (take-append-drop size rs))))

  pub apply_parallel-map_each :
      (concurrency : ℕ) (schema : Option (List Field)) (f : Record → Option Record)
      (recs : List Record)
      → IsPointwise schema f
      → succeeded (apply_parallel codec mapper concurrency schema recs) ≡ map_each f recs
  unfolding apply_parallel
  apply_parallel-map_each concurrency schema f [] p = refl
  apply_parallel-map_each concurrency schema f (rec ∷ recs) p =
      let n = length (rec ∷ recs) in
      let size = chunk_size n concurrency in
      if_elim (λ r. succeeded r ≡ map_each f (rec ∷ recs))
        (leb concurrency 1 || ltb n (concurrency * 2)) _ _ (λ e. p (rec ∷ recs))
        (λ e.
          let start : 0 * size ≡ 0 = omega arith in
          let whole : drop (0 * size) (rec ∷ recs) ≡ rec ∷ recs =
            ap (λ k. drop k (rec ∷ recs)) start in
          let bound : length (drop (0 * size) (rec ∷ recs)) ≤ (n + size - 1) / size * size =
            omega
              (arith, ap length whole, enough_chunks n size (chunk_size_positive n concurrency)) in
          combine-map_each schema f size 0 ((n + size - 1) / size) (rec ∷ recs) p bound
          ∙ ap (map_each f) whole)
