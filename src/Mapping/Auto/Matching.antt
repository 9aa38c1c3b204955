-- ===== src/Mapping/Auto/Matching.antt =====
-- The greedy choice of matchFields.
use mathlib.Core.List.{Memᴰ}
use mathlib.Core.List.Memᴰ
use durable_integrations.Prelude.{
  ℕ, zero, suc, ◌+◌, true, false, ◌||◌, some, List, [], ◌∷◌, ◌≡◌, refl, sym, ap, ◌∙◌, subst, ◌⊎◌,
  inl, inr, arith, ◌==◌, ==_iff, Bool-cases, get_elem?, ◌↔◌, if_elim,
}
use durable_integrations.Mapping.Auto.{
  Floats, SchemaField, AutoMapper, ScoredPair, field_score, pairs_with, pairs_from, is_used, assign,
  chosen_pairs,
}
use durable_integrations.Mapping.Auto.Assigned.{
  AreApart, assign_passes, assign_takes, assign-AreApart, assign-subset,
}
use durable_integrations.Mapping.Auto.Scored.{IsScored, pairs_from-IsScored}

first_place : (n : ℕ) → 0 + n ≡ n
first_place n = omega arith

module _ {ℓ} {F : Type ℓ} (floats : Floats F) where
  -- No score is greater than one before it.
  abbrev pub IsSorted : List (ScoredPair F) → Type ℓ
  IsSorted [] = Unit
  IsSorted (p ∷ pairs) =
      ((q : ScoredPair F) → Memᴰ q pairs → floats.greater q.score p.score ≡ false) × IsSorted pairs

  -- Some chosen pair has the same source or the same destination, and a score that is not less.
  abbrev pub IsSettled : List (ScoredPair F) → ScoredPair F → Type ℓ
  IsSettled chosen p =
      (q : ScoredPair F) × Memᴰ q chosen
      × ((q.src_index ≡ p.src_index) ⊎ (q.dst_index ≡ p.dst_index))
      × ((q ≡ p) ⊎ (floats.greater p.score q.score ≡ false))

  abbrev IsCovered : List ℕ → List ℕ → List (ScoredPair F) → ScoredPair F → Type ℓ
  IsCovered us ud chosen p =
      ((is_used p.src_index us || is_used p.dst_index ud) ≡ true) ⊎ IsSettled chosen p

  -- What the head of the loop adds to what is covered.
  head_covers :
      (us ud : List ℕ) (head p : ScoredPair F) (chosen : List (ScoredPair F))
      → floats.greater p.score head.score ≡ false
      → IsCovered (head.src_index ∷ us) (head.dst_index ∷ ud) chosen p
      → IsCovered us ud (head ∷ chosen) p
  head_covers us ud head p chosen g (inr (q, m, same, better)) = inr (q, Memᴰ.tail m, same, better)
  head_covers us ud head p chosen g (inl e) =
      elim (Bool-cases (is_used p.src_index us || is_used p.dst_index ud)) [
        | inl f ↦ inl f
        | inr f ↦ elim (Bool-cases (head.src_index == p.src_index)) [
          | inl s ↦ inr (head, Memᴰ.head refl, inl ((==_iff head.src_index p.src_index).0 s), inr g)
          | inr s ↦
              let d : (head.dst_index == p.dst_index) ≡ true = ground arith in
              inr (head, Memᴰ.head refl, inr ((==_iff head.dst_index p.dst_index).0 d), inr g)
        ]
      ]

  assign-IsCovered :
      (us ud : List ℕ) (pairs : List (ScoredPair F)) (p : ScoredPair F)
      → IsSorted pairs
      → Memᴰ p pairs
      → IsCovered us ud (assign us ud pairs) p
  assign-IsCovered us ud [] p sorted m = absurd (Memᴰ.not-nil m)
  assign-IsCovered us ud (x ∷ pairs) p (first, sorted) m =
      elim (Bool-cases (is_used x.src_index us || is_used x.dst_index ud)) [
        | inl e ↦ rw (assign_passes us ud x pairs e) (elim (Memᴰ.cases_cons m) [
          | inl same ↦
              inl (
                subst (λ z. (is_used z.src_index us || is_used z.dst_index ud) ≡ true) (sym same) e)
          | inr later ↦ assign-IsCovered us ud pairs p sorted later
        ])
        | inr e ↦ rw (assign_takes us ud x pairs e) (elim (Memᴰ.cases_cons m) [
          | inl same ↦
              inr (x, Memᴰ.head refl, inl (ap (λ z. z.src_index) (sym same)), inl (sym same))
          | inr later ↦
              head_covers us ud x p _ (first p later)
                (assign-IsCovered (x.src_index ∷ us) (x.dst_index ∷ ud) pairs p sorted later)
        ])
      ]

  -- Nothing is used at first.
  settled :
      {p : ScoredPair F} {chosen : List (ScoredPair F)}
      → IsCovered [] [] chosen p
      → IsSettled chosen p
  settled (inl e) = cc
  settled (inr s) = s

  module _ (to_lower : ℕ → ℕ) (am : AutoMapper F) where
    -- The pair at these places, with the score of its fields.
    abbrev pub pair_at : ℕ → ℕ → SchemaField → SchemaField → ScoredPair F
    pair_at i j src dest = record {
      src_index = i;
      dst_index = j;
      score = field_score floats to_lower am src dest;
    }

    pairs_with_complete :
        (i : ℕ) (src : SchemaField) (j k : ℕ) (dests : List SchemaField) (dest : SchemaField)
        → get_elem? dests k ≡ some dest
        → floats.at_least (field_score floats to_lower am src dest) am.min_confidence ≡ true
        → Memᴰ (pair_at i (j + k) src dest) (pairs_with floats to_lower am i src j dests)
    unfolding pairs_with
    pairs_with_complete i src j k [] dest h e = cc
    pairs_with_complete i src j zero (d ∷ dests) dest h e =
        let same : d ≡ dest = cc in
        let enough =
          subst
            (λ x. floats.at_least (field_score floats to_lower am src x) am.min_confidence ≡ true)
            (sym same) e in
        let here : j + 0 ≡ j = omega arith in
        rw enough
          (Memᴰ.head (ap (λ n. pair_at i n src dest) here ∙ ap (pair_at i j src) (sym same)))
    pairs_with_complete i src j (suc k) (d ∷ dests) dest h e =
        let there : j + 1 + k ≡ j + suc k = omega arith in
        let below =
          subst
            (λ n. Memᴰ (pair_at i n src dest) (pairs_with floats to_lower am i src (j + 1) dests))
            there (pairs_with_complete i src (j + 1) k dests dest h e) in
        if_elim (λ ps. Memᴰ (pair_at i (j + suc k) src dest) ps)
          (floats.at_least (field_score floats to_lower am src d) am.min_confidence) _ _
          (λ f. Memᴰ.tail below) (λ f. below)

    pairs_from_complete :
        (i k j : ℕ) (srcs dests : List SchemaField) (src dest : SchemaField)
        → get_elem? srcs k ≡ some src
        → get_elem? dests j ≡ some dest
        → floats.at_least (field_score floats to_lower am src dest) am.min_confidence ≡ true
        → Memᴰ (pair_at (i + k) j src dest) (pairs_from floats to_lower am i srcs dests)
    unfolding pairs_from
    pairs_from_complete i k j [] dests src dest h g e = cc
    pairs_from_complete i zero j (s ∷ srcs) dests src dest h g e =
        let same : s ≡ src = cc in
        let here : i ≡ i + 0 = omega arith in
        Memᴰ.append_left _ (
          subst (λ n. Memᴰ (pair_at n j src dest) (pairs_with floats to_lower am i s 0 dests)) here
            (subst (λ x. Memᴰ (pair_at i j src dest) (pairs_with floats to_lower am i x 0 dests))
              (sym same)
              (subst
                (λ n. Memᴰ (pair_at i n src dest) (pairs_with floats to_lower am i src 0 dests))
                (first_place j) (pairs_with_complete i src 0 j dests dest g e))))
    pairs_from_complete i (suc k) j (s ∷ srcs) dests src dest h g e =
        let there : i + 1 + k ≡ i + suc k = omega arith in
        Memᴰ.append_right (pairs_with floats to_lower am i s 0 dests) (
          subst
            (λ n. Memᴰ (pair_at n j src dest) (pairs_from floats to_lower am (i + 1) srcs dests))
            there (pairs_from_complete (i + 1) k j srcs dests src dest h g e))

    -- What sort.Slice leaves: the same pairs, by falling score.
    abbrev pub IsSorting : List (ScoredPair F) → List (ScoredPair F) → Type ℓ
    IsSorting sorted pairs = IsSorted sorted × ((p : ScoredPair F) → Memᴰ p pairs ↔ Memᴰ p sorted)

    -- The chosen pairs have no source field and no destination field in common. Each is a pair of a
    -- given source field and a given destination field with their score, which is not below the least
    -- one. And for each source field and destination field whose score is not below the least one, a
    -- chosen pair has that source field or that destination field, and is that pair or has a score that
    -- is not less.
    pub chosen_pairs-IsSettled :
        (sort : List (ScoredPair F) → List (ScoredPair F)) (srcs dests : List SchemaField)
        → IsSorting
            (sort (pairs_from floats to_lower am 0 srcs dests))
            (pairs_from floats to_lower am 0 srcs dests)
        → AreApart (chosen_pairs floats to_lower sort am srcs dests)
          × ((p : ScoredPair F)
              → Memᴰ p (chosen_pairs floats to_lower sort am srcs dests)
              → IsScored floats to_lower am srcs dests 0 p)
          × ((i j : ℕ) (src dest : SchemaField)
              → get_elem? srcs i ≡ some src
              → get_elem? dests j ≡ some dest
              → floats.at_least (field_score floats to_lower am src dest) am.min_confidence ≡ true
              → IsSettled (chosen_pairs floats to_lower sort am srcs dests) (pair_at i j src dest))
    unfolding chosen_pairs
    chosen_pairs-IsSettled sort srcs dests (sorted, same) = (
      assign-AreApart [] [] (sort (pairs_from floats to_lower am 0 srcs dests)),
      λ p m. pairs_from-IsScored floats to_lower am 0 srcs dests p (
          (same p).1 (assign-subset [] [] (sort (pairs_from floats to_lower am 0 srcs dests)) p m)),
      λ i j src dest h g e.
          let place =
            subst (λ n. Memᴰ (pair_at n j src dest) (pairs_from floats to_lower am 0 srcs dests))
              (first_place i) (pairs_from_complete 0 i j srcs dests src dest h g e) in
          settled (
            assign-IsCovered [] [] (sort (pairs_from floats to_lower am 0 srcs dests)) _ sorted
              ((same (pair_at i j src dest)).0 place)),
    )
