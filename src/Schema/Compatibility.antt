-- ===== src/Schema/Compatibility.antt =====
-- When two schemas differ, and when the new one can still take the records of the old one.
use durable_integrations.Prelude.{
  ℕ, ◌≡◌, refl, ap, ◌∙◌, sym, subst, ◌↔◌, inl, inr, Bool, true, false, not, ◌&&◌, ◌||◌, Option,
  none, some, List, [], ◌∷◌, ◌++◌, ◌==◌, any, Bool-cases, arith,
}
use durable_integrations.Prelude.Bytes.{Text, eqb, eqb_iff}
use durable_integrations.Prelude.Result.{ok}
use durable_integrations.Schema.{
  PropertyInfo, Properties, find_property, SchemaJson, extract_properties, SchemaChange, add_names,
  insert_name, sort_names, field_changes, changes_of, all_fields, detect_breaking_changes,
  SchemaDiff, compare_schemas,
}

abbrev is_some {ℓ} : {A : Type ℓ} → Option A → Bool
is_some none = false
is_some (some a) = true

any-insert_name :
    (f key : Text) (xs : List Text)
    → any (eqb f) (insert_name key xs) ≡ (eqb f key || any (eqb f) xs)
unfolding insert_name
any-insert_name f key [] = refl
any-insert_name f key (x ∷ xs) = ground (arith, any-insert_name f key xs)

any-sort_names : (f : Text) (xs : List Text) → any (eqb f) (sort_names xs) ≡ any (eqb f) xs
unfolding sort_names
any-sort_names f [] = refl
any-sort_names f (x ∷ xs) = ground (arith, any-insert_name f x (sort_names xs), any-sort_names f xs)

any-add_names :
    (f : Text) (fields : List Text) (ps : Properties)
    → any (eqb f) (add_names fields ps) ≡ (any (eqb f) fields || is_some (find_property f ps))
unfolding add_names find_property
any-add_names f fields [] = ground arith
any-add_names f fields ((key, p) ∷ rest) = elim (Bool-cases (eqb f key)) [
  | inl same ↦
      let here : f ≡ key = (eqb_iff f key).0 same in
      elim (Bool-cases (any (eqb key) fields)) [
        | inl known ↦
            let known_f : any (eqb f) fields ≡ true =
              subst (λ x. any (eqb x) fields ≡ true) (sym here) known in
            ground (arith, any-add_names f fields rest)
        | inr fresh ↦ ground (arith, any-add_names f (key ∷ fields) rest)
      ]
  | inr other ↦ ground (arith, any-add_names f fields rest, any-add_names f (key ∷ fields) rest)
]

-- A test that a list of changes passes if its parts do.
module _ (q : List SchemaChange → Bool) (q_none : q [] ≡ true)
    (q-append : (xs ys : List SchemaChange) → q (xs ++ ys) ≡ (q xs && q ys))
    (old new : Properties) where
  abbrev of_field : Text → List SchemaChange
  of_field f = field_changes f (find_property f old) (find_property f new)

  changes_of-all :
      (fs : List Text)
      → q (changes_of old new fs) ≡ true
      → (f : Text) → any (eqb f) fs ≡ true
      → q (of_field f) ≡ true
  unfolding changes_of
  changes_of-all [] h f m = cc
  changes_of-all (g ∷ fs) h f m = elim (Bool-cases (eqb f g)) [
    | inl same ↦
        subst (λ x. q (of_field x) ≡ true) (sym ((eqb_iff f g).0 same))
          (ground (arith, q-append (of_field g) (changes_of old new fs)))
    | inr other ↦
        changes_of-all fs (ground (arith, q-append (of_field g) (changes_of old new fs))) f
          (ground arith)
  ]

  all-changes_of :
      (fs : List Text) → ((f : Text) → q (of_field f) ≡ true) → q (changes_of old new fs) ≡ true
  unfolding changes_of
  all-changes_of [] h = q_none
  all-changes_of (g ∷ fs) h =
      ground (arith, q-append (of_field g) (changes_of old new fs), h g, all-changes_of fs h)

  -- A field of neither schema has no changes.
  nowhere :
      (f : Text)
      → (is_some (find_property f old) || is_some (find_property f new)) ≡ false
      → q (of_field f) ≡ true
  unfolding field_changes
  nowhere f h = absent (find_property f old) (find_property f new) h
    where
      absent :
          (a b : Option PropertyInfo)
          → (is_some a || is_some b) ≡ false
          → q (field_changes f a b) ≡ true
      absent none none e = q_none
      absent none (some n) e = cc
      absent (some o) b e = cc

  changes_of_iff :
      (q (changes_of old new (all_fields old new)) ≡ true) ↔ ((f : Text) → q (of_field f) ≡ true)
  unfolding all_fields
  changes_of_iff = (
    λ h f.
        let fs = add_names (add_names [] old) new in
        elim (Bool-cases (is_some (find_property f old) || is_some (find_property f new))) [
          | inl somewhere ↦ changes_of-all (sort_names fs) h f (
              any-sort_names f fs
              ∙ any-add_names f (add_names [] old) new
              ∙ ap (λ b. b || is_some (find_property f new)) (any-add_names f [] old)
              ∙ somewhere)
          | inr absent ↦ nowhere f absent
        ],
    λ h. all-changes_of (all_fields old new) h,
  )

abbrev compatible : List SchemaChange → Bool
compatible changes = not (any (λ c. c.is_breaking) changes)

abbrev is_empty : List SchemaChange → Bool
is_empty [] = true
is_empty (c ∷ cs) = false

compatible-append :
    (xs ys : List SchemaChange) → compatible (xs ++ ys) ≡ (compatible xs && compatible ys)
compatible-append [] ys = refl
compatible-append (x ∷ xs) ys = ground (arith, compatible-append xs ys)

is_empty-append : (xs ys : List SchemaChange) → is_empty (xs ++ ys) ≡ (is_empty xs && is_empty ys)
is_empty-append [] ys = refl
is_empty-append (x ∷ xs) ys = refl

is_empty_iff : (xs : List SchemaChange) → (is_empty xs ≡ true) ↔ (xs ≡ [])
is_empty_iff [] = (λ e. refl, λ e. refl)
is_empty_iff (x ∷ xs) = (λ e. cc, λ e. cc)

-- The second description of a field takes what the first allows.
abbrev pub TakesField : Option PropertyInfo → Option PropertyInfo → Type 0
TakesField a b =
    (o : PropertyInfo)
    → a ≡ some o
    → (n : PropertyInfo) × (b ≡ some n)
      × (n.kind ≡ o.kind)
      × (o.nullable ≡ true → n.nullable ≡ true)

takes_both :
    (o n : PropertyInfo)
    → TakesField (some o) (some n)
    → (n.kind ≡ o.kind) × (o.nullable ≡ true → n.nullable ≡ true)
takes_both o n h =
    let (m, e, k, l) = h o refl in
    let same : m ≡ n = cc in
    subst (λ x. (x.kind ≡ o.kind) × (o.nullable ≡ true → x.nullable ≡ true)) same (k, l)

same_info : (o n : PropertyInfo) → o.kind ≡ n.kind → o.nullable ≡ n.nullable → some o ≡ some n
same_info o n k l = let same : o ≡ n = ground arith in ap some same

field_compatible_iff :
    (f : Text) (a b : Option PropertyInfo)
    → (compatible (field_changes f a b) ≡ true) ↔ TakesField a b
unfolding field_changes
field_compatible_iff f none b = (λ h o e. cc, λ h. added b)
  where
    added : (b : Option PropertyInfo) → compatible (field_changes f none b) ≡ true
    added none = refl
    added (some n) = refl
field_compatible_iff f (some o) none = (λ h. cc, λ h. let (n, e, k, l) = h o refl in cc)
field_compatible_iff f (some o) (some n) = (
  λ h o' e.
      let same : o ≡ o' = cc in
      subst
        (λ x.
          (m : PropertyInfo) × (some n ≡ some m)
          × (m.kind ≡ x.kind)
          × (x.nullable ≡ true → m.nullable ≡ true))
        same (n, refl, (ground (arith, eqb_iff o.kind n.kind)), (λ e. ground arith)),
  λ h.
      let (k, l) = takes_both o n h in
      elim (Bool-cases o.nullable) [
        | inl yes_null ↦ let still = l yes_null in ground (arith, eqb_iff o.kind n.kind, k)
        | inr no_null ↦ ground (arith, eqb_iff o.kind n.kind, k)
      ],
)

field_empty_iff :
    (f : Text) (a b : Option PropertyInfo) → (is_empty (field_changes f a b) ≡ true) ↔ (a ≡ b)
unfolding field_changes
field_empty_iff f none none = (λ h. refl, λ h. refl)
field_empty_iff f none (some n) = (λ h. cc, λ h. cc)
field_empty_iff f (some o) none = (λ h. cc, λ h. cc)
field_empty_iff f (some o) (some n) = (
  λ h. same_info o n (ground (arith, eqb_iff o.kind n.kind)) (ground arith),
  λ h.
      let same : o ≡ n = cc in
      let k : o.kind ≡ n.kind = ap (λ x. x.kind) same in
      let l : o.nullable ≡ n.nullable = ap (λ x. x.nullable) same in
      ground (arith, eqb_iff o.kind n.kind, k, l),
)

-- The new properties take each record that the old ones take: no field is gone, none has another type,
-- and none has lost its null.
abbrev pub Takes : Properties → Properties → Type 0
Takes old new = (f : Text) → TakesField (find_property f old) (find_property f new)

abbrev pub SameFields : Properties → Properties → Type 0
SameFields old new = (f : Text) → find_property f old ≡ find_property f new

changes_compatible_iff :
    (old new : Properties)
    → (compatible (changes_of old new (all_fields old new)) ≡ true) ↔ Takes old new
changes_compatible_iff old new =
    let (there, back) = changes_of_iff compatible refl compatible-append old new in
    (
      λ h f. (field_compatible_iff f (find_property f old) (find_property f new)).0 (there h f),
      λ h. back (λ f. (field_compatible_iff f (find_property f old) (find_property f new)).1 (h f)),
    )

changes_empty_iff :
    (old new : Properties) → (changes_of old new (all_fields old new) ≡ []) ↔ SameFields old new
changes_empty_iff old new =
    let (there, back) = changes_of_iff is_empty refl is_empty-append old new in
    let changes = changes_of old new (all_fields old new) in
    (
      λ h f.
          (field_empty_iff f (find_property f old) (find_property f new)).0
            (there ((is_empty_iff changes).1 h) f),
      λ h.
          (is_empty_iff changes).0
            (back (λ f. (field_empty_iff f (find_property f old) (find_property f new)).1 (h f))),
    )

-- Two stored versions of a stream whose schemas parse are compared as follows. The new one counts as
-- compatible exactly if each field of the old one is there with its type and, if it took nulls, takes
-- them still. No change is reported exactly if the fields, types and nulls are the same.
pub compare_schemas_iff :
    (get : Text → ℕ → Option SchemaJson) (id : Text) (v1 v2 : ℕ) (one two : SchemaJson)
    (old new : Properties)
    → eqb id [] ≡ false
    → (v1 == v2) ≡ false
    → get id v1 ≡ some one
    → get id v2 ≡ some two
    → extract_properties one ≡ ok old
    → extract_properties two ≡ ok new
    → (diff : SchemaDiff) × (compare_schemas get id v1 v2 ≡ ok diff)
      × ((diff.is_compatible ≡ true) ↔ Takes old new)
      × ((diff.changes ≡ []) ↔ SameFields old new)
unfolding compare_schemas detect_breaking_changes
compare_schemas_iff get id v1 v2 one two old new named distinct get_one get_two parse_one
      parse_two =
    let list = changes_of old new (all_fields old new) in
    let diff : SchemaDiff = record { changes = list; is_compatible = compatible list } in
    (
      diff,
      rw (named, distinct, get_one, get_two, parse_one, parse_two) refl,
      changes_compatible_iff old new,
      changes_empty_iff old new,
    )
