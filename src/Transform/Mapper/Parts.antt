-- ===== src/Transform/Mapper/Parts.antt =====
-- Paths without brackets and empty parts, as parsePath and strings.Split take them apart (mapper.go).
use durable_integrations.Prelude.{
  ℕ, ◌≡◌, refl, ap, ◌∙◌, inl, inr, Bool, true, false, ◌&&◌, none, List, [], ◌∷◌, ◌++◌, ◌==◌,
  if◌then◌else◌, Bool-cases, arith,
}
use durable_integrations.Prelude.Bytes.{Text}
use durable_integrations.Transform.Mapper.{
  dot, bracket, flush, segments_from, index_text, split_dots,
}

-- Neither a bracket nor an empty part; `started` says whether the part so far has a byte.
abbrev pub plain_from : Bool → Text → Bool
plain_from started [] = started
plain_from started (c ∷ cs) =
    if c == dot
    then started && plain_from false cs
    else if c == bracket
    then false
    else plain_from true cs

abbrev pub is_plain : Text → Bool
is_plain path = plain_from false path

abbrev pub has_byte : Text → Bool
has_byte [] = false
has_byte (c ∷ cs) = true

abbrev opens_bracket : Text → Bool
opens_bracket [] = false
opens_bracket (c ∷ cs) = c == bracket

has_byte-append : (xs : Text) (c : ℕ) → has_byte (xs ++ c ∷ []) ≡ true
has_byte-append [] c = refl
has_byte-append (x ∷ xs) c = refl

opens_bracket-append :
    (xs : Text) (c : ℕ)
    → opens_bracket xs ≡ false
    → (c == bracket) ≡ false
    → opens_bracket (xs ++ c ∷ []) ≡ false
opens_bracket-append [] c h e = e
opens_bracket-append (x ∷ xs) c h e = h

flush_byte :
    (current : Text) (rest : List Text)
    → has_byte current ≡ true
    → flush current rest ≡ current ∷ rest
flush_byte [] rest h = cc
flush_byte (c ∷ cs) rest h = refl

pub segments_from-split_dots :
    (current path : Text)
    → plain_from (has_byte current) path ≡ true
    → segments_from current path ≡ split_dots current path
unfolding segments_from split_dots
segments_from-split_dots current [] h = flush_byte current [] h
segments_from-split_dots current (c ∷ cs) h = elim (Bool-cases (c == dot)) [
  | inl is_dot ↦
      let full : has_byte current ≡ true = ground arith in
      let rest : plain_from false cs ≡ true = ground arith in
      rw (is_dot, segments_from, split_dots)
        (flush_byte current (segments_from [] cs) full
          ∙ ap (λ x. current ∷ x) (segments_from-split_dots [] cs rest))
  | inr no_dot ↦ elim (Bool-cases (c == bracket)) [
    | inl opened ↦ let bad : true ≡ false = ground arith in cc
    | inr other ↦
        let more : plain_from true cs ≡ true = ground arith in
        rw (no_dot, other, segments_from, split_dots)
          (segments_from-split_dots (current ++ c ∷ []) cs
            (ap (λ b. plain_from b cs) (has_byte-append current c) ∙ more))
  ]
]

-- No part is an index.
abbrev pub AllNames : List Text → Type 0
AllNames [] = Unit
AllNames (s ∷ rest) = (index_text s ≡ none) × AllNames rest

index_text-none : (s : Text) → opens_bracket s ≡ false → index_text s ≡ none
index_text-none [] h = refl
index_text-none (c ∷ cs) h = rw (h, index_text) refl

pub split_dots-AllNames :
    (current path : Text) (started : Bool)
    → opens_bracket current ≡ false
    → plain_from started path ≡ true
    → AllNames (split_dots current path)
unfolding split_dots
split_dots-AllNames current [] started h p = (index_text-none current h, tt)
split_dots-AllNames current (c ∷ cs) started h p = elim (Bool-cases (c == dot)) [
  | inl is_dot ↦
      let rest : plain_from false cs ≡ true = ground arith in
      rw (is_dot, split_dots) (index_text-none current h, split_dots-AllNames [] cs false refl rest)
  | inr no_dot ↦
      let other : (c == bracket) ≡ false = ground arith in
      let rest : plain_from true cs ≡ true = ground arith in
      rw (no_dot, split_dots)
        (split_dots-AllNames (current ++ c ∷ []) cs true (opens_bracket-append current c h other)
          rest)
]
