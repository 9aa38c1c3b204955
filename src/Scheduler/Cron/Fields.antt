-- ===== src/Scheduler/Cron/Fields.antt =====
-- What a whole expression that the parser accepts holds.
use mathlib.Core.List.{append-nil}
use durable_integrations.Prelude.{
  ℕ, ◌≤◌, ◌≡◌, refl, inl, inr, List, [], ◌∷◌, ◌++◌, ◌==◌, Bool-cases, arith, subst, any, Bool,
  false, ◌||◌,
}
use durable_integrations.Prelude.Result.{Result, ok, bind_ok}
use durable_integrations.Scheduler.Cron.{
  Text, CronError, CronFields, parse_part, parse_parts, parse_single_field, parse_fields,
  parse_cron_expr, split_from, fields_from,
}
use durable_integrations.Scheduler.Cron.Ranges.{
  Filled, Filled-append, is_immodest, parse_part-Filled,
}

or_false : {a b : Bool} → (a || b) ≡ false → (a ≡ false) × (b ≡ false)
or_false h = (ground arith, ground arith)

ok_injective {ℓ} : {A : Type ℓ} (a b : A) → ◌≡◌ {A = Result CronError A} (ok a) (ok b) → a ≡ b
ok_injective a b e = cc

parse_parts-Filled :
    (part : Text) (rest : List Text) (min max : ℕ) (values : List ℕ)
    → min ≤ max
    → max ≤ 59
    → any is_immodest (part ∷ rest) ≡ false
    → parse_parts (part ∷ rest) min max ≡ ok values
    → Filled min max values
unfolding parse_parts
parse_parts-Filled part [] min max values k b m h =
    let (first, e, found) = bind_ok (parse_part part min max) h in
    let (here, _) = or_false m in
    subst (Filled min max) (ok_injective (first ++ []) values found)
      (rw append-nil (parse_part-Filled part min max first k b here e))
parse_parts-Filled part (next ∷ rest) min max values k b m h =
    let (first, e, found) = bind_ok (parse_part part min max) h in
    let (more, e', found') = bind_ok (parse_parts (next ∷ rest) min max) found in
    let (here, later) = or_false m in
    subst (Filled min max) (ok_injective (first ++ more) values found') (
      Filled-append min max first more (parse_part-Filled part min max first k b here e)
        (parse_parts-Filled next rest min max more k b later e'))

-- A split has a part, if only an empty one.
split_from_cons :
    (sep : ℕ) (part text : Text)
    → (first : Text) × (rest : List Text) × (split_from sep part text ≡ first ∷ rest)
unfolding split_from
split_from_cons sep part [] = (part, [], refl)
split_from_cons sep part (c ∷ cs) = elim (Bool-cases (c == sep)) [
  | inl e ↦ rw e (part, split_from sep [] cs, refl)
  | inr e ↦ rw e (split_from_cons sep (part ++ c ∷ []) cs)
]

-- Some step of the field takes a sum from some upper bound to 2^63.
abbrev pub has_immodest_step : Text → Bool
has_immodest_step field = any is_immodest (split_from b',' [] field)

parse_single_field-Filled :
    (field : Text) (min max : ℕ) {values : List ℕ}
    → min ≤ max
    → max ≤ 59
    → has_immodest_step field ≡ false
    → parse_single_field field min max ≡ ok values
    → Filled min max values
unfolding parse_single_field
parse_single_field-Filled field min max {values} k b m h =
    let (first, rest, e) = split_from_cons b',' [] field in
    parse_parts-Filled first rest min max values k b (rw e at m) (rw e at h)

-- Every field holds a value, and only values of its range.
pub record IsFilled (fields : CronFields) : Type 0 where
  pub minutes : Filled 0 59 fields.minutes
  pub hours : Filled 0 23 fields.hours
  pub days : Filled 1 31 fields.days
  pub months : Filled 1 12 fields.months
  pub weekdays : Filled 0 6 fields.weekdays

parse_fields-IsFilled :
    (texts : List Text) (fields : CronFields)
    → any has_immodest_step texts ≡ false
    → parse_fields texts ≡ ok fields
    → IsFilled fields
unfolding parse_fields
parse_fields-IsFilled (f0 ∷ f1 ∷ f2 ∷ f3 ∷ f4 ∷ []) fields m h =
    let (v0, e0, h0) = bind_ok (parse_single_field f0 0 59) h in
    let (v1, e1, h1) = bind_ok (parse_single_field f1 0 23) h0 in
    let (v2, e2, h2) = bind_ok (parse_single_field f2 1 31) h1 in
    let (v3, e3, h3) = bind_ok (parse_single_field f3 1 12) h2 in
    let (v4, e4, h4) = bind_ok (parse_single_field f4 0 6) h3 in
    let (m0, n0) = or_false m in
    let (m1, n1) = or_false n0 in
    let (m2, n2) = or_false n1 in
    let (m3, n3) = or_false n2 in
    let (m4, _) = or_false n3 in
    subst IsFilled (ok_injective _ fields h4) (record {
      minutes = parse_single_field-Filled f0 0 59 (omega arith) (omega arith) m0 e0;
      hours = parse_single_field-Filled f1 0 23 (omega arith) (omega arith) m1 e1;
      days = parse_single_field-Filled f2 1 31 (omega arith) (omega arith) m2 e2;
      months = parse_single_field-Filled f3 1 12 (omega arith) (omega arith) m3 e3;
      weekdays = parse_single_field-Filled f4 0 6 (omega arith) (omega arith) m4 e4;
    })
parse_fields-IsFilled texts fields m h = cc

-- Of an accepted expression in which no step and 59 add up to 2^63 or more, every field holds at
-- least one value, and only values of its range.
pub parse_cron_expr-IsFilled :
    (expr : Text) (fields : CronFields)
    → any has_immodest_step (fields_from [] expr) ≡ false
    → parse_cron_expr expr ≡ ok fields
    → IsFilled fields
unfolding parse_cron_expr
parse_cron_expr-IsFilled expr fields m h = parse_fields-IsFilled (fields_from [] expr) fields m h
