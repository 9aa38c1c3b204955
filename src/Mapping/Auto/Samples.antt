-- ===== src/Mapping/Auto/Samples.antt =====
-- The distance of two words, and the choice among two fields with scores in tenths.
use mathlib.Core.List.{Memᴰ}
use mathlib.Core.List.Memᴰ
use durable_integrations.Prelude.{
  String, ℕ, ◌+◌, ◌-◌, ◌*◌, ◌/◌, true, false, some, List, [], ◌∷◌, ◌≡◌, refl, ltb, leb, get_elem?,
  keep, sym, subst, inl, inr,
}
use durable_integrations.Prelude.Bytes.{bytes}
use durable_integrations.Mapping.Auto.{
  Floats, SchemaField, AutoMapper, ScoredPair, field_score, chosen_pairs, pairs_from, pairs_with,
  name_similarity, normalize_name, type_compatibility,
}
use durable_integrations.Mapping.Auto.Distance.{levenshtein_distance, rows, cells, first_row}
use durable_integrations.Mapping.Auto.Distance.Rows.{IsLeast, levenshtein_distance-IsLeast}
use durable_integrations.Mapping.Auto.Assigned.{AreApart}
use durable_integrations.Mapping.Auto.Scored.{IsScored}
use durable_integrations.Mapping.Auto.Matching.{
  IsSettled, IsSorting, pair_at, chosen_pairs-IsSettled,
}

kitten : levenshtein_distance (bytes "kitten") (bytes "sitting") ≡ 3
unfolding levenshtein_distance rows cells first_row
kitten = refl

levenshtein_distance-IsLeast_example :
    IsLeast
      (levenshtein_distance (bytes "kitten") (bytes "sitting"))
      (bytes "kitten")
      (bytes "sitting")
levenshtein_distance-IsLeast_example =
    levenshtein_distance-IsLeast (bytes "kitten") (bytes "sitting")

-- Hundredths.
abbrev hundredths : Floats ℕ
hundredths = record {
  of_tenths = λ n. n * 10;
  of_nat = λ n. n * 100;
  add = λ a b. a + b;
  subtract = λ a b. a - b;
  multiply = λ a b. a * b / 100;
  divide = λ a b. a * 100 / b;
  round = λ a. a;
  greater = λ a b. ltb b a;
  at_least = λ a b. leb b a;
}

abbrev same_letter : ℕ → ℕ
same_letter r = r

abbrev named : String → SchemaField
named name = record { path = bytes name; kind = bytes "string"; name = bytes name }

abbrev mapper : AutoMapper ℕ
mapper = record { min_confidence = 60; type_weight = 30; name_weight = 70 }

abbrev srcs : List SchemaField
srcs = named "email" ∷ named "city" ∷ []

abbrev dests : List SchemaField
dests = named "e_mail" ∷ named "cities" ∷ []

abbrev unsorted : List (ScoredPair ℕ) → List (ScoredPair ℕ)
unsorted pairs = pairs

abbrev best : ScoredPair ℕ
best = record { src_index = 0; dst_index = 0; score = 100 }

abbrev second_best : ScoredPair ℕ
second_best = record { src_index = 1; dst_index = 1; score = 65 }

pairs : pairs_from hundredths same_letter mapper 0 srcs dests ≡ best ∷ second_best ∷ []
unfolding pairs_from pairs_with field_score name_similarity normalize_name type_compatibility
    levenshtein_distance rows cells first_row keep
pairs = refl

first_is_best :
    (q : ScoredPair ℕ) → Memᴰ q (second_best ∷ []) → hundredths.greater q.score best.score ≡ false
first_is_best q m = elim (Memᴰ.cases_cons m) [
  | inl e ↦ subst (λ r. hundredths.greater r.score best.score ≡ false) (sym e) refl
  | inr n ↦ absurd (Memᴰ.not-nil n)
]

sorted :
    IsSorting hundredths same_letter mapper
      (unsorted (pairs_from hundredths same_letter mapper 0 srcs dests))
      (pairs_from hundredths same_letter mapper 0 srcs dests)
sorted = rw pairs ((first_is_best, (λ q m. absurd (Memᴰ.not-nil m), tt)), λ p. (λ m. m, λ m. m))

chosen_pairs-IsSettled_example :
    AreApart (chosen_pairs hundredths same_letter unsorted mapper srcs dests)
    × ((p : ScoredPair ℕ)
        → Memᴰ p (chosen_pairs hundredths same_letter unsorted mapper srcs dests)
        → IsScored hundredths same_letter mapper srcs dests 0 p)
    × ((i j : ℕ) (src dest : SchemaField)
        → get_elem? srcs i ≡ some src
        → get_elem? dests j ≡ some dest
        → hundredths.at_least (field_score hundredths same_letter mapper src dest) 60 ≡ true
        → IsSettled hundredths
            (chosen_pairs hundredths same_letter unsorted mapper srcs dests)
            (pair_at hundredths same_letter mapper i j src dest))
chosen_pairs-IsSettled_example =
    chosen_pairs-IsSettled hundredths same_letter mapper unsorted srcs dests sorted
