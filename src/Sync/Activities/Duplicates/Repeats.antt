-- ===== src/Sync/Activities/Duplicates/Repeats.antt =====
-- DeduplicateActivity against a description that looks back at the records themselves.
use durable_integrations.Prelude.{
  ◌+◌, Bool, true, false, ◌&&◌, Option, none, some, List, [], ◌∷◌, if◌then◌else◌, any, length, ◌≡◌,
  refl, sym, ◌∙◌, inl, inr, Bool-cases, Option-cases, arith, subst,
}
use durable_integrations.Prelude.Bytes.{Text, eqb, eqb_iff}
use durable_integrations.Sync.Activities.{Record, Libraries}
use durable_integrations.Sync.Activities.Duplicates.{
  ConfiguredStream, record_key, has_seen, dedupe_from, deduplicate_activity,
}

-- The key is there, and it is this one.
abbrev is_key : Text → Option Text → Bool
is_key key none = false
is_key key (some other) = eqb other key

module _ {ℓ} {F : Type ℓ} (lib : Libraries F) (streams : List ConfiguredStream) where
  -- Some of these records has the stream and the key.
  abbrev occurs : List Record → Text → Text → Bool
  occurs records stream key =
      any (λ r. eqb r.stream stream && is_key key (record_key lib streams r)) records

  -- The record has a key, and one of these has the same stream and the same key.
  abbrev pub is_repeat : List Record → Record → Bool
  is_repeat earlier rec = elim (record_key lib streams rec) [
    | none ↦ false
    | some key ↦ occurs earlier rec.stream key
  ]

  -- The records that repeat none of those before them, the latest of which stands first in `earlier`.
  unfoldable pub first_ones : List Record → List Record → List Record
  first_ones earlier [] = []
  first_ones earlier (rec ∷ recs) =
      let rest = first_ones (rec ∷ earlier) recs in
      if is_repeat earlier rec then rest else rec ∷ rest

  abbrev IsKnown : List (Text × Text) → List Record → Type 0
  IsKnown seen earlier = (stream key : Text) → has_seen seen stream key ≡ occurs earlier stream key

  -- A record whose stream and key occur adds nothing.
  occurs_again :
      (earlier : List Record) (rec : Record) (key : Text)
      → record_key lib streams rec ≡ some key
      → occurs earlier rec.stream key ≡ true
      → (stream other : Text) → occurs earlier stream other ≡ occurs (rec ∷ earlier) stream other
  occurs_again earlier rec key e f s k = elim (Bool-cases (eqb rec.stream s && eqb key k)) [
    | inl g ↦
        let a : rec.stream ≡ s = ground (arith, eqb_iff rec.stream s) in
        let b : key ≡ k = ground (arith, eqb_iff key k) in
        let there =
          subst (λ x. occurs earlier x k ≡ true) a
            (subst (λ x. occurs earlier rec.stream x ≡ true) b f) in
        ground (arith, there)
    | inr g ↦ rw e (ground arith)
  ]

  dedupe_from-first_ones :
      (seen : List (Text × Text)) (earlier records : List Record)
      → IsKnown seen earlier
      → ((dedupe_from lib streams seen records).records ≡ first_ones earlier records)
        × (length (dedupe_from lib streams seen records).records
              + (dedupe_from lib streams seen records).duplicates_found
            ≡ length records)
  unfolding dedupe_from first_ones
  dedupe_from-first_ones seen earlier [] h = (refl, omega arith)
  dedupe_from-first_ones seen earlier (rec ∷ recs) h =
      elim (Option-cases (record_key lib streams rec)) [
        | inl e ↦
            let known : IsKnown seen (rec ∷ earlier) = λ s k. h s k ∙ (rw e (ground arith)) in
            let below = dedupe_from-first_ones seen (rec ∷ earlier) recs known in
            (ground (arith, below), ground (arith, below))
        | inr (key, e) ↦ elim (Bool-cases (has_seen seen rec.stream key)) [
          | inl f ↦
              let known : IsKnown seen (rec ∷ earlier) =
                λ s k. h s k ∙ occurs_again earlier rec key e (sym (h rec.stream key) ∙ f) s k in
              let below = dedupe_from-first_ones seen (rec ∷ earlier) recs known in
              let g = sym (h rec.stream key) ∙ f in (ground (arith, below), ground (arith, below))
          | inr f ↦
              let known : IsKnown ((rec.stream, key) ∷ seen) (rec ∷ earlier) =
                λ s k. rw e (ground (arith, h s k)) in
              let below =
                dedupe_from-first_ones ((rec.stream, key) ∷ seen) (rec ∷ earlier) recs known in
              let g = sym (h rec.stream key) ∙ f in (ground (arith, below), ground (arith, below))
        ]
      ]

  -- The records that are kept are those that do not repeat an earlier one: a record repeats an earlier
  -- one if both are of one stream and have the same key. The others are counted.
  pub deduplicate_activity-first_ones :
      (records : List Record)
      → ((deduplicate_activity lib streams records).records ≡ first_ones [] records)
        × (length (deduplicate_activity lib streams records).records
              + (deduplicate_activity lib streams records).duplicates_found
            ≡ length records)
  unfolding deduplicate_activity
  deduplicate_activity-first_ones records = dedupe_from-first_ones [] [] records (λ s k. refl)
