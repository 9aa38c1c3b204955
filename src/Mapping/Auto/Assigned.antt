-- ===== src/Mapping/Auto/Assigned.antt =====
-- The loop that chooses pairs: its branches, and that it chooses no field twice.
use mathlib.Core.List.{Memᴰ}
use mathlib.Core.List.Memᴰ
use durable_integrations.Prelude.{
  ℕ, true, false, ◌||◌, List, [], ◌∷◌, map, ◌≡◌, refl, inl, inr, arith, ==_iff, Bool-cases,
}
use durable_integrations.Mapping.Auto.{ScoredPair, is_used, assign}

is_used_here : (i : ℕ) (used : List ℕ) → is_used i (i ∷ used) ≡ true
is_used_here i used = ground (arith, ==_iff i i)

module _ {ℓ} {F : Type ℓ} where
  abbrev sources : List (ScoredPair F) → List ℕ
  sources pairs = map (λ p. p.src_index) pairs

  abbrev destinations : List (ScoredPair F) → List ℕ
  destinations pairs = map (λ p. p.dst_index) pairs

  -- No two pairs have a source field or a destination field in common.
  abbrev pub AreApart : List (ScoredPair F) → Type 0
  AreApart [] = Unit
  AreApart (p ∷ pairs) =
      (is_used p.src_index (sources pairs) ≡ false)
      × (is_used p.dst_index (destinations pairs) ≡ false)
      × AreApart pairs

  -- The end and the two branches of the loop.
  assign-nil : (us ud : List ℕ) → assign {F = F} us ud [] ≡ []
  unfolding assign
  assign-nil us ud = refl

  module _ (us ud : List ℕ) (p : ScoredPair F) (pairs : List (ScoredPair F)) where
    pub assign_passes :
        (is_used p.src_index us || is_used p.dst_index ud) ≡ true
        → assign us ud (p ∷ pairs) ≡ assign us ud pairs
    unfolding assign
    assign_passes e = rw (e, assign) refl

    pub assign_takes :
        (is_used p.src_index us || is_used p.dst_index ud) ≡ false
        → assign us ud (p ∷ pairs) ≡ p ∷ assign (p.src_index ∷ us) (p.dst_index ∷ ud) pairs
    unfolding assign
    assign_takes e = rw (e, assign) refl

  -- What is used is not chosen again.
  assign_unused :
      (i : ℕ) (used_src used_dst : List ℕ) (pairs : List (ScoredPair F))
      → (is_used i used_src ≡ true → is_used i (sources (assign used_src used_dst pairs)) ≡ false)
        × (is_used i used_dst ≡ true
            → is_used i (destinations (assign used_src used_dst pairs)) ≡ false)
  assign_unused i us ud [] = rw (assign-nil us ud) (λ h. refl, λ h. refl)
  assign_unused i us ud (p ∷ pairs) =
      elim (Bool-cases (is_used p.src_index us || is_used p.dst_index ud)) [
        | inl e ↦ rw (assign_passes us ud p pairs e) (assign_unused i us ud pairs)
        | inr e ↦
            let (a, b) = assign_unused i (p.src_index ∷ us) (p.dst_index ∷ ud) pairs in
            rw (assign_takes us ud p pairs e) (
              λ h. ground (arith, a, ==_iff p.src_index i),
              λ h. ground (arith, b, ==_iff p.dst_index i),
            )
      ]

  pub assign-AreApart :
      (used_src used_dst : List ℕ) (pairs : List (ScoredPair F))
      → AreApart (assign used_src used_dst pairs)
  assign-AreApart us ud [] = rw (assign-nil us ud) tt
  assign-AreApart us ud (p ∷ pairs) =
      elim (Bool-cases (is_used p.src_index us || is_used p.dst_index ud)) [
        | inl e ↦ rw (assign_passes us ud p pairs e) (assign-AreApart us ud pairs)
        | inr e ↦
            let us' = p.src_index ∷ us in
            let ud' = p.dst_index ∷ ud in
            rw (assign_takes us ud p pairs e) (
              (assign_unused p.src_index us' ud' pairs).0 (is_used_here p.src_index us),
              (assign_unused p.dst_index us' ud' pairs).1 (is_used_here p.dst_index ud),
              assign-AreApart us' ud' pairs,
            )
      ]

  -- What is chosen stands among the pairs.
  pub assign-subset :
      (used_src used_dst : List ℕ) (pairs : List (ScoredPair F)) (p : ScoredPair F)
      → Memᴰ p (assign used_src used_dst pairs)
      → Memᴰ p pairs
  assign-subset us ud [] p m = absurd (Memᴰ.not-nil (rw (assign-nil us ud) at m))
  assign-subset us ud (x ∷ pairs) p m =
      elim (Bool-cases (is_used x.src_index us || is_used x.dst_index ud)) [
        | inl e ↦ Memᴰ.tail (assign-subset us ud pairs p (rw (assign_passes us ud x pairs e) at m))
        | inr e ↦ elim (Memᴰ.cases_cons (rw (assign_takes us ud x pairs e) at m)) [
          | inl same ↦ Memᴰ.head same
          | inr later ↦
              Memᴰ.tail (assign-subset (x.src_index ∷ us) (x.dst_index ∷ ud) pairs p later)
        ]
      ]
