-- ===== src/Transform/Columns/Selected.antt =====
-- A batch of columns, read back row by row.
use durable_integrations.Prelude.{
  ℕ, zero, suc, ◌+◌, Bool, true, false, Option, none, some, List, [], ◌∷◌, ◌++◌, map, ◌≡◌, refl,
  sym, ap, ◌∙◌, subst, inl, inr, arith, if◌then◌else◌, get_or, get_elem?, length, length-append,
  any, Bool-cases, Option-cases,
}
use mathlib.Core.List.{append_assoc}
use durable_integrations.Prelude.Bytes.{Text, eqb, eqb_iff}
use durable_integrations.Transform.Mapper.{Json, null, Fields, end, get_field, put_field}
use durable_integrations.Transform.Columns.{
  Field, Column, Batch, Codec, new_batch, present, push, append_fields, append_row, row_at,
  add_content, records_from, to_records,
}

abbrev pub is_field : Text → List Field → Bool
is_field name fields = any (λ f. eqb f.name name) fields

-- No two fields have the same name.
abbrev pub AreDistinct : List Field → Type 0
AreDistinct [] = Unit
AreDistinct (f ∷ fields) = (is_field f.name fields ≡ false) × AreDistinct fields

-- The fields of a row that the schema names, less those that are null.
abbrev pub selected : List Field → Fields → Fields → Fields
selected [] row chosen = chosen
selected (f ∷ fields) row chosen =
    selected fields row
      (elim (present (get_field f.name row)) [ none ↦ chosen | some v ↦ put_field f.name v chosen ])

append_fields-push :
    (fields : List Field) (row : Fields) (columns : Text → Column) (name : Text)
    → AreDistinct fields
    → append_fields fields row columns name ≡ (
        if is_field name fields
        then push (present (get_field name row)) (columns name)
        else columns name)
unfolding append_fields
append_fields-push [] row columns name d = refl
append_fields-push (f ∷ fields) row columns name d =
    let columns' : Text → Column = λ n.
      if eqb n f.name then push (present (get_field f.name row)) (columns f.name) else columns n in
    let below = append_fields-push fields row columns' name d.1 in
    elim (Bool-cases (eqb f.name name)) [
      | inl e ↦
          subst
            (λ n. append_fields fields row columns' n ≡ (
              if is_field n (f ∷ fields)
              then push (present (get_field n row)) (columns n)
              else columns n))
            ((eqb_iff f.name name).0 e)
            (ground (
              arith,
              append_fields-push fields row columns' f.name d.1,
              d.0,
              eqb_iff f.name f.name,
            ))
      | inr e ↦ below ∙ ground (arith, eqb_iff f.name name, eqb_iff name f.name)
    ]

pub value_of : Text → Fields → Json
value_of name row = elim (present (get_field name row)) [ none ↦ null | some v ↦ v ]

pub is_null : Text → Fields → Bool
is_null name row = elim (present (get_field name row)) [ none ↦ true | some v ↦ false ]

-- The column holds the values of these rows.
abbrev IsColumn : Text → Column → List Fields → Type 0
IsColumn name col rows =
    (col.values ≡ map (value_of name) rows) × (col.nulls ≡ map (is_null name) rows)

abbrev AreColumns : List Field → (Text → Column) → List Fields → Type 0
AreColumns [] columns rows = Unit
AreColumns (f ∷ fields) columns rows =
    IsColumn f.name (columns f.name) rows × AreColumns fields columns rows

map-last {ℓ} :
    {A : Type ℓ} {B : Type 0} (f : A → B) (xs : List A) (x : A)
    → map f (xs ++ x ∷ []) ≡ map f xs ++ f x ∷ []
map-last f [] x = refl
map-last f (y ∷ xs) x = ap (◌∷◌ (f y)) (map-last f xs x)

push-IsColumn :
    (name : Text) (col : Column) (rows : List Fields) (row : Fields)
    → IsColumn name col rows
    → IsColumn name (push (present (get_field name row)) col) (rows ++ row ∷ [])
unfolding value_of is_null
push-IsColumn name col rows row (a, b) = elim (Option-cases (present (get_field name row))) [
  | inl e ↦
      let v : value_of name row ≡ null = rw (e, value_of) refl in
      let n : is_null name row ≡ true = rw (e, is_null) refl in
      rw e (
        ap (λ vs. vs ++ null ∷ []) a
            ∙ (ap (λ x. map (value_of name) rows ++ x ∷ []) (sym v)
                ∙ sym (map-last (value_of name) rows row)),
        ap (λ ns. ns ++ true ∷ []) b
            ∙ (ap (λ x. map (is_null name) rows ++ x ∷ []) (sym n)
                ∙ sym (map-last (is_null name) rows row)),
      )
  | inr (w, e) ↦
      let v : value_of name row ≡ w = rw (e, value_of) refl in
      let n : is_null name row ≡ false = rw (e, is_null) refl in
      rw e (
        ap (λ vs. vs ++ w ∷ []) a
            ∙ (ap (λ x. map (value_of name) rows ++ x ∷ []) (sym v)
                ∙ sym (map-last (value_of name) rows row)),
        ap (λ ns. ns ++ false ∷ []) b
            ∙ (ap (λ x. map (is_null name) rows ++ x ∷ []) (sym n)
                ∙ sym (map-last (is_null name) rows row)),
      )
]

get_or-map {ℓ} :
    {A : Type ℓ} {B : Type 0} (f : A → B) (xs : List A) (i : ℕ) (x : A) (d : B)
    → get_elem? xs i ≡ some x
    → get_or (map f xs) i d ≡ f x
get_or-map f [] i x d h = cc
get_or-map f (y ∷ xs) zero x d h = cc
get_or-map f (y ∷ xs) (suc i) x d h = get_or-map f xs i x d h

row_at-selected :
    (fields : List Field) (columns : Text → Column) (rows : List Fields) (i : ℕ)
    (row chosen : Fields)
    → AreColumns fields columns rows
    → get_elem? rows i ≡ some row
    → row_at fields columns i chosen ≡ selected fields row chosen
unfolding row_at value_of is_null
row_at-selected [] columns rows i row chosen h e = refl
row_at-selected (f ∷ fields) columns rows i row chosen ((a, b), h) e =
    let null_here = ap (λ ns. get_or ns i true) b ∙ get_or-map (is_null f.name) rows i row true e in
    let value_here =
      ap (λ vs. get_or vs i null) a ∙ get_or-map (value_of f.name) rows i row null e in
    elim (Option-cases (present (get_field f.name row))) [
      | inl p ↦
          let gone : get_or (columns f.name).nulls i true ≡ true =
            null_here ∙ (rw (p, is_null) refl) in
          rw (gone, p) (row_at-selected fields columns rows i row chosen h e)
      | inr (v, p) ↦
          let there : get_or (columns f.name).nulls i true ≡ false =
            null_here ∙ (rw (p, is_null) refl) in
          let value : get_or (columns f.name).values i null ≡ v =
            value_here ∙ (rw (p, value_of) refl) in
          rw (there, value, p)
            (row_at-selected fields columns rows i row (put_field f.name v chosen) h e)
    ]

append_fields-AreColumns :
    (fields others : List Field) (row : Fields) (columns : Text → Column) (rows : List Fields)
    → AreDistinct others
    → ((f : Field) → is_field f.name fields ≡ true → is_field f.name others ≡ true)
    → AreColumns fields columns rows
    → AreColumns fields (append_fields others row columns) (rows ++ row ∷ [])
append_fields-AreColumns [] others row columns rows d h c = tt
append_fields-AreColumns (f ∷ fields) others row columns rows d h (c, cs) =
    let here : is_field f.name others ≡ true = h f (ground (arith, eqb_iff f.name f.name)) in
    let pushed : append_fields others row columns f.name
        ≡ push (present (get_field f.name row)) (columns f.name) =
      append_fields-push others row columns f.name d ∙ (rw here refl) in
    (
      subst (λ col. IsColumn f.name col (rows ++ row ∷ [])) (sym pushed)
          (push-IsColumn f.name (columns f.name) rows row c),
      append_fields-AreColumns fields others row columns rows d (λ g e. h g (ground arith)) cs,
    )

-- The columns of a batch hold these rows.
abbrev pub Holds : Batch → List Fields → Type 0
Holds b rows = AreColumns b.schema b.columns rows × (b.row_count ≡ length rows)

pub new_batch-Holds : (schema : List Field) → Holds (new_batch schema) []
unfolding new_batch
new_batch-Holds schema = (empty schema, refl)
  where
    empty : (fields : List Field) → AreColumns fields (new_batch schema).columns []
    empty [] = tt
    empty (f ∷ fields) = ((refl, refl), empty fields)

pub append_row-Holds :
    (row : Fields) (b : Batch) (rows : List Fields)
    → AreDistinct b.schema
    → Holds b rows
    → Holds (append_row row b) (rows ++ row ∷ [])
unfolding append_row
append_row-Holds row b rows d (c, n) = (
  append_fields-AreColumns b.schema b.schema row b.columns rows d (λ f e. e) c,
  omega (arith, n, length-append rows (row ∷ [])),
)

-- The rows, reduced to the schema and marshalled.
unfoldable pub all_selected : Codec → List Field → List Fields → Option (List Text)
all_selected codec schema [] = some []
all_selected codec schema (row ∷ rows) =
    let rest = all_selected codec schema rows in
    add_content (codec.marshal (selected schema row end)) rest

get_elem?-append :
    (before rest : List Fields) (row : Fields)
    → get_elem? (before ++ row ∷ rest) (length before) ≡ some row
get_elem?-append [] rest row = refl
get_elem?-append (x ∷ before) rest row = get_elem?-append before rest row

records_from-all_selected :
    (codec : Codec) (b : Batch) (before rest : List Fields)
    → AreColumns b.schema b.columns (before ++ rest)
    → records_from codec b (length before) (length rest) ≡ all_selected codec b.schema rest
unfolding records_from all_selected
records_from-all_selected codec b before [] h = refl
records_from-all_selected codec b before (row ∷ rest) h =
    let here =
      row_at-selected b.schema b.columns (before ++ row ∷ rest) (length before) row end h
        (get_elem?-append before rest row) in
    let long : length (before ++ row ∷ []) ≡ length before + 1 =
      omega (arith, length-append before (row ∷ [])) in
    let next : before ++ row ∷ rest ≡ (before ++ row ∷ []) ++ rest =
      sym (append_assoc before (row ∷ []) rest) in
    let below =
      records_from-all_selected codec b (before ++ row ∷ []) rest
        (subst (AreColumns b.schema b.columns) next h) in
    let below' =
      subst (λ n. records_from codec b n (length rest) ≡ all_selected codec b.schema rest) long
        below in
    ap (λ r. add_content (codec.marshal r) (records_from codec b (length before + 1) (length rest)))
      here
    ∙ ap (add_content (codec.marshal (selected b.schema row end))) below'

-- A batch that holds rows is read back as these rows, reduced to the fields of its schema.
pub to_records-all_selected :
    (codec : Codec) (b : Batch) (rows : List Fields)
    → Holds b rows
    → to_records codec b ≡ all_selected codec b.schema rows
unfolding to_records
to_records-all_selected codec b rows (h, n) =
    ap (records_from codec b 0) n ∙ records_from-all_selected codec b [] rows h
