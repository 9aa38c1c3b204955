-- ===== src/Transform/Mapper/Paths.antt =====
-- What a path reads after it or another one was written (getNestedValue and setNestedValue in mapper.go).
use durable_integrations.Prelude.{
  ◌≡◌, refl, ap, ◌∙◌, sym, subst, inl, inr, Bool, true, false, Option, none, some, List, [], ◌∷◌,
  ◌++◌, ◌==◌, if◌then◌else◌, Bool-cases, arith,
}
use durable_integrations.Prelude.Bytes.{Text, eqb, eqb_iff}
use durable_integrations.Transform.Mapper.{
  Json, null, boolean, scalar, text, array, object, Fields, end, field, get_field, put_field, dot,
  parse_path, index_text, step_down, walk, get_nested_value, split_dots, map_at, put_at,
  set_nested_value,
}
use durable_integrations.Transform.Mapper.Parts.{
  is_plain, AllNames, segments_from-split_dots, split_dots-AllNames,
}

get_field-put_field :
    (key other : Text) (v : Json) (m : Fields)
    → get_field other (put_field key v m) ≡ (if eqb key other then some v else get_field other m)
unfolding get_field put_field
get_field-put_field key other v end = ground (arith, eqb_iff key other, eqb_iff other key)
get_field-put_field key other v (field name old rest) = ground (
  arith,
  get_field-put_field key other v rest,
  eqb_iff key other,
  eqb_iff key name,
  eqb_iff other name,
)

-- The paths part at some step, before either ends.
abbrev pub diverge : List Text → List Text → Bool
diverge [] ts = false
diverge (s ∷ ss) [] = false
diverge (s ∷ ss) (t ∷ ts) = if eqb s t then diverge ss ts else true

-- A name leads into a map, and nowhere from another value.
step_down-object :
    (s : Text) (m : Fields) → index_text s ≡ none → step_down s (object m) ≡ get_field s m
unfolding step_down
step_down-object s m h = rw (h, step_down) refl

abbrev from_option : List Text → Option Json → Json
from_option rest none = null
from_option rest (some v) = walk v rest

walk-object :
    (s : Text) (rest : List Text) (m : Fields)
    → index_text s ≡ none
    → walk (object m) (s ∷ rest) ≡ from_option rest (get_field s m)
unfolding walk
walk-object s rest m h = ap (from_option rest) (step_down-object s m h)

walk-put_at :
    (s : Text) (rest : List Text) (v : Json) (m : Fields)
    → AllNames (s ∷ rest)
    → walk (object (put_at (s ∷ rest) v m)) (s ∷ rest) ≡ v
unfolding walk put_at
walk-put_at s [] v m (h, hs) =
    walk-object s [] (put_field s v m) h
    ∙ ap (from_option []) (get_field-put_field s s v m ∙ same_key)
  where
    same_key : (if eqb s s then some v else get_field s m) ≡ some v
    same_key = ground (arith, eqb_iff s s)
walk-put_at s (t ∷ rest) v m (h, hs) =
    let below = put_at (t ∷ rest) v (map_at (get_field s m)) in
    walk-object s (t ∷ rest) (put_field s (object below) m) h
    ∙ ap (from_option (t ∷ rest)) (get_field-put_field s s (object below) m ∙ same_key below)
    ∙ walk-put_at t rest v (map_at (get_field s m)) hs
  where
    same_key :
        (below : Fields)
        → (if eqb s s then some (object below) else get_field s m) ≡ some (object below)
    same_key below = ground (arith, eqb_iff s s)

-- In what was behind a key or, if that was no map, in a new map.
abbrev is_object : Json → Bool
is_object (object fields) = true
is_object v = false

step_down-none :
    (t : Text) (v : Json) → index_text t ≡ none → is_object v ≡ false → step_down t v ≡ none
unfolding step_down
step_down-none t null h e = rw (h, step_down) refl
step_down-none t (boolean b) h e = rw (h, step_down) refl
step_down-none t (scalar x) h e = rw (h, step_down) refl
step_down-none t (text x) h e = rw (h, step_down) refl
step_down-none t (array items) h e = rw (h, step_down) refl
step_down-none t (object fields) h e = cc

walk-end :
    (t : Text) (rest : List Text) (v : Json)
    → index_text t ≡ none
    → is_object v ≡ false
    → walk (object end) (t ∷ rest) ≡ walk v (t ∷ rest)
unfolding walk get_field
walk-end t rest v h e =
    walk-object t rest end h ∙ sym (ap (from_option rest) (step_down-none t v h e))

walk-map_at :
    (value : Option Json) (t : Text) (rest : List Text)
    → index_text t ≡ none
    → walk (object (map_at value)) (t ∷ rest) ≡ from_option (t ∷ rest) value
unfolding get_field
walk-map_at none t rest h = walk-object t rest end h
walk-map_at (some null) t rest h = walk-end t rest null h refl
walk-map_at (some (boolean b)) t rest h = walk-end t rest (boolean b) h refl
walk-map_at (some (scalar x)) t rest h = walk-end t rest (scalar x) h refl
walk-map_at (some (text x)) t rest h = walk-end t rest (text x) h refl
walk-map_at (some (array items)) t rest h = walk-end t rest (array items) h refl
walk-map_at (some (object fields)) t rest h = refl

-- At another key, what was there is there.
other_key :
    (s t : Text) (rest : List Text) (v : Json) (m : Fields)
    → index_text t ≡ none
    → eqb s t ≡ false
    → walk (object (put_field s v m)) (t ∷ rest) ≡ walk (object m) (t ∷ rest)
other_key s t rest v m h e =
    walk-object t rest (put_field s v m) h
    ∙ ap (from_option rest) (get_field-put_field s t v m ∙ rw e refl)
    ∙ sym (walk-object t rest m h)

walk-put_at_other :
    (s : Text) (ss : List Text) (t : Text) (ts : List Text) (v : Json) (m : Fields)
    → AllNames (t ∷ ts)
    → diverge (s ∷ ss) (t ∷ ts) ≡ true
    → walk (object (put_at (s ∷ ss) v m)) (t ∷ ts) ≡ walk (object m) (t ∷ ts)
unfolding put_at
walk-put_at_other s [] t ts v m (h, hs) d = other_key s t ts v m h (ground arith)
walk-put_at_other s (s2 ∷ ss) t [] v m (h, hs) d =
    other_key s t [] (object (put_at (s2 ∷ ss) v (map_at (get_field s m)))) m h (ground arith)
walk-put_at_other s (s2 ∷ ss) t (t2 ∷ ts) v m (h, hs) d =
    let below = object (put_at (s2 ∷ ss) v (map_at (get_field s m))) in
    elim (Bool-cases (eqb s t)) [
      | inr differs ↦ other_key s t (t2 ∷ ts) below m h differs
      | inl same ↦
          let key : s ≡ t = (eqb_iff s t).0 same in
          let deeper : diverge (s2 ∷ ss) (t2 ∷ ts) ≡ true = rw same at d in
          let here : (if eqb s t then some below else get_field t m) ≡ some below = rw same refl in
          walk-object t (t2 ∷ ts) (put_field s below m) h
          ∙ ap (from_option (t2 ∷ ts)) (get_field-put_field s t below m ∙ here)
          ∙ walk-put_at_other s2 ss t2 ts v (map_at (get_field s m)) hs deeper
          ∙ walk-map_at (get_field s m) t2 ts hs.0
          ∙ ap (λ k. from_option (t2 ∷ ts) (get_field k m)) key
          ∙ sym (walk-object t (t2 ∷ ts) m h)
    ]

-- A path has at least one part.
split_dots_cons :
    (current path : Text) → (s : Text) × (rest : List Text) × (split_dots current path ≡ s ∷ rest)
unfolding split_dots
split_dots_cons current [] = (current, [], refl)
split_dots_cons current (c ∷ cs) = elim (Bool-cases (c == dot)) [
  | inl is_dot ↦ (current, split_dots [] cs, rw (is_dot, split_dots) refl)
  | inr no_dot ↦
      let (s, rest, e) = split_dots_cons (current ++ c ∷ []) cs in
      (s, rest, rw (no_dot, split_dots) e)
]

get_parts :
    (m : Fields) (path : Text)
    → is_plain path ≡ true
    → get_nested_value m path ≡ walk (object m) (split_dots [] path)
unfolding get_nested_value parse_path
get_parts m path h = ap (walk (object m)) (segments_from-split_dots [] path h)

-- After a value was written at a path without brackets and empty parts, that path reads the value, and
-- any other such path that parts from it, before either ends, reads what it read before.
pub get_nested_value-set_nested_value :
    (m : Fields) (path : Text) (v : Json)
    → is_plain path ≡ true
    → (get_nested_value (set_nested_value m path v) path ≡ v)
      × ((other : Text)
          → is_plain other ≡ true
          → diverge (split_dots [] path) (split_dots [] other) ≡ true
          → get_nested_value (set_nested_value m path v) other ≡ get_nested_value m other)
unfolding set_nested_value
get_nested_value-set_nested_value m path v h =
    let (s, ss, e) = split_dots_cons [] path in
    let after = set_nested_value m path v in
    let written : set_nested_value m path v ≡ put_at (s ∷ ss) v m = ap (λ x. put_at x v m) e in
    let names : AllNames (s ∷ ss) = subst AllNames e (split_dots-AllNames [] path false refl h) in
    (
      get_parts after path h
          ∙ ap (walk (object after)) e
          ∙ ap (λ x. walk (object x) (s ∷ ss)) written
          ∙ walk-put_at s ss v m names,
      λ other p d.
          let (t, ts, f) = split_dots_cons [] other in
          let others : AllNames (t ∷ ts) =
            subst AllNames f (split_dots-AllNames [] other false refl p) in
          let parts : diverge (s ∷ ss) (t ∷ ts) ≡ true = rw (e, f) at d in
          get_parts after other p
          ∙ ap (walk (object after)) f
          ∙ ap (λ x. walk (object x) (t ∷ ts)) written
          ∙ walk-put_at_other s ss t ts v m others parts
          ∙ ap (walk (object m)) (sym f)
          ∙ sym (get_parts m other p),
    )
