-- ===== src/Mapping/Auto/Scored.antt =====
-- The pairs that are scored are pairs of the given fields.
use mathlib.Core.List.{Memᴰ}
use mathlib.Core.List.Memᴰ
use durable_integrations.Prelude.{
  ℕ, suc, ◌+◌, true, some, List, [], ◌∷◌, ◌≡◌, refl, sym, ap, ◌∙◌, subst, inl, inr, arith,
  Bool-cases, get_elem?,
}
use durable_integrations.Mapping.Auto.{
  Floats, SchemaField, AutoMapper, ScoredPair, field_score, pairs_with, pairs_from,
}

right_zero : (n : ℕ) → n ≡ n + 0
right_zero n = omega arith

module _ {ℓ} {F : Type ℓ} (floats : Floats F) (to_lower : ℕ → ℕ) (am : AutoMapper F) where
  -- The pair has the score of these two fields, which is enough.
  abbrev pub HasScore : ScoredPair F → SchemaField → SchemaField → Type ℓ
  HasScore p src dest =
      (p.score ≡ field_score floats to_lower am src dest)
      × (floats.at_least p.score am.min_confidence ≡ true)

  moved :
      (i : ℕ) (src : SchemaField) (j : ℕ) (d : SchemaField) (dests : List SchemaField)
      (p : ScoredPair F)
      → ((k : ℕ) × (dest : SchemaField) × (get_elem? dests k ≡ some dest)
          × (p.src_index ≡ i)
          × (p.dst_index ≡ j + 1 + k)
          × HasScore p src dest)
      → (k : ℕ) × (dest : SchemaField) × (get_elem? (d ∷ dests) k ≡ some dest)
        × (p.src_index ≡ i)
        × (p.dst_index ≡ j + k)
        × HasScore p src dest
  moved i src j d dests p (k, dest, h, a, b, s) =
      let there : j + 1 + k ≡ j + suc k = omega arith in (suc k, dest, h, a, b ∙ there, s)

  pairs_with_sound :
      (i : ℕ) (src : SchemaField) (j : ℕ) (dests : List SchemaField) (p : ScoredPair F)
      → Memᴰ p (pairs_with floats to_lower am i src j dests)
      → (k : ℕ) × (dest : SchemaField) × (get_elem? dests k ≡ some dest)
        × (p.src_index ≡ i)
        × (p.dst_index ≡ j + k)
        × HasScore p src dest
  unfolding pairs_with
  pairs_with_sound i src j [] p m = absurd (Memᴰ.not-nil m)
  pairs_with_sound i src j (d ∷ dests) p m =
      let score = field_score floats to_lower am src d in
      elim (Bool-cases (floats.at_least score am.min_confidence)) [
        | inl e ↦ elim (Memᴰ.cases_cons (rw e at m)) [
          | inl same ↦ (
            0,
            d,
            refl,
            ap (λ q. q.src_index) same,
            ap (λ q. q.dst_index) same ∙ right_zero j,
            (ap (λ q. q.score) same, ap (λ q. floats.at_least q.score am.min_confidence) same ∙ e),
          )
          | inr later ↦ moved i src j d dests p (pairs_with_sound i src (j + 1) dests p later)
        ]
        | inr e ↦ moved i src j d dests p (pairs_with_sound i src (j + 1) dests p (rw e at m))
      ]

  abbrev pub IsScored : List SchemaField → List SchemaField → ℕ → ScoredPair F → Type ℓ
  IsScored srcs dests i p =
      (k : ℕ) × (src dest : SchemaField) × (p.src_index ≡ i + k)
      × (get_elem? srcs k ≡ some src)
      × (get_elem? dests p.dst_index ≡ some dest)
      × HasScore p src dest

  pub pairs_from-IsScored :
      (i : ℕ) (srcs dests : List SchemaField) (p : ScoredPair F)
      → Memᴰ p (pairs_from floats to_lower am i srcs dests)
      → IsScored srcs dests i p
  unfolding pairs_from
  pairs_from-IsScored i [] dests p m = absurd (Memᴰ.not-nil m)
  pairs_from-IsScored i (s ∷ srcs) dests p m =
      elim (Memᴰ.append_cases (pairs_with floats to_lower am i s 0 dests) m) [
        | inl here ↦
            let (k, dest, h, a, b, score) = pairs_with_sound i s 0 dests p here in
            let place : p.dst_index ≡ k = omega (arith, b) in
            (
              0,
              s,
              dest,
              a ∙ right_zero i,
              refl,
              subst (λ n. get_elem? dests n ≡ some dest) (sym place) h,
              score,
            )
        | inr later ↦
            let (k, src, dest, a, h, g, score) = pairs_from-IsScored (i + 1) srcs dests p later in
            let there : i + 1 + k ≡ i + suc k = omega arith in
            (suc k, src, dest, a ∙ there, h, g, score)
      ]
