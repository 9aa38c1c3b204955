-- ===== src/Scheduler/Cron/Ranges.antt =====
-- What a parsed field holds.
use durable_integrations.Prelude.{
  ℕ, zero, suc, ◌+◌, ◌*◌, ◌^◌, ◌%◌, ◌≤◌, ◌<◌, ◌≡◌, refl, ◌↔◌, inl, inr, Bool, true, false, ◌||◌,
  Option, none, some, List, [], ◌∷◌, ◌++◌, ltb, leb, ◌==◌, arith, Bool-cases, ==_iff, subst,
  if◌then◌else◌,
}
use durable_integrations.Prelude.Int.{ℤ, pos, negsuc}
use durable_integrations.Prelude.Result.{Result, ok, err, ◌>>=◌, bind_ok}
use durable_integrations.Scheduler.Cron.{
  Text, CronError, signed_leb, values_from, range_values, split_step, bounded_range, bounded_value,
  is_star, number, parse_base, parse_part, has, cut_from, atoi,
}

-- No sum of the loop up to this end reaches 2^63.
abbrev pub IsModest : ℕ → ℕ → Type 0
IsModest end step = end + step < 2 ^ 63

-- A round of such a loop.
values_from_plain :
    (rounds v end step : ℕ)
    → v < 2 ^ 63
    → IsModest end step
    → values_from (suc rounds) v end step
      ≡ (if leb v end then v ∷ values_from rounds (v + step) end step else [])
unfolding values_from signed_leb
values_from_plain rounds v end step low m = elim (Bool-cases (leb v end)) [
  | inl e ↦
      let small : (v + step) % 2 ^ 64 ≡ v + step = ground arith in rw (small, e) (ground arith)
  | inr e ↦ rw e (ground arith)
]

abbrev InStep : ℕ → ℕ → ℕ → ℕ → Type 0
InStep v end step x = (k : ℕ) × (x ≡ v + k * step) × (x ≤ end)

values_from-InStep :
    (rounds v end step x : ℕ)
    → v < 2 ^ 63
    → IsModest end step
    → has (values_from rounds v end step) x ≡ true
    → InStep v end step x
unfolding values_from
values_from-InStep zero v end step x b m e = cc
values_from-InStep (suc rounds) v end step x b m e =
    let plain = values_from_plain rounds v end step b m in
    let f = rw plain at e in
    elim (Bool-cases (leb v end)) [
      | inl low ↦ elim (Bool-cases (v == x)) [
        | inl here ↦ let at : v ≡ x = (==_iff v x).0 here in (0, omega arith, ground arith)
        | inr there ↦
            let later : has (values_from rounds (v + step) end step) x ≡ true = ground arith in
            let (k, at, fits) =
              values_from-InStep rounds (v + step) end step x (ground arith) m later in
            (k + 1, omega arith, fits)
      ]
      | inr high ↦ absurd (ground arith)
    ]

InStep-values_from :
    (rounds v end step x : ℕ)
    → 0 < step
    → v < 2 ^ 63
    → IsModest end step
    → end + 1 ≤ v + rounds
    → InStep v end step x
    → has (values_from rounds v end step) x ≡ true
InStep-values_from zero v end step x h b m f (k, at, fits) = absurd (omega arith)
InStep-values_from (suc rounds) v end step x h b m f (zero, at, fits) =
    let here : x ≡ v = omega arith in rw (values_from_plain rounds v end step b m) (ground arith)
InStep-values_from (suc rounds) v end step x h b m f (suc k, at, fits) =
    let low : v ≤ end = omega arith in
    let later =
      InStep-values_from rounds (v + step) end step x h (omega arith) m (omega arith)
        (k, omega arith, fits) in
    rw (values_from_plain rounds v end step b m) (ground arith)

-- A range `start-end/step` that is in bounds, or `*/step`, of which no sum reaches 2^63, holds
-- exactly the values start, start + step, start + 2 * step and so on up to the end.
pub has-range_values :
    (start end step x : ℕ)
    → 0 < step
    → start ≤ end
    → IsModest end step
    → (has (range_values start end step) x ≡ true) ↔ ((k : ℕ) × (x ≡ start + k * step) × (x ≤ end))
unfolding range_values
has-range_values start end step x h order m = (
  values_from-InStep (end + 4) start end step x (omega arith) m,
  InStep-values_from (end + 4) start end step x h (omega arith) m (omega arith),
)

-- Every value of the field lies in its range, and there is one.
abbrev pub Filled : ℕ → ℕ → List ℕ → Type 0
Filled min max values =
    ((x : ℕ) → has values x ≡ true → (min ≤ x) × (x ≤ max)) × ((x : ℕ) × (has values x ≡ true))

has-append : (xs ys : List ℕ) (x : ℕ) → has (xs ++ ys) x ≡ (has xs x || has ys x)
has-append [] ys x = refl
has-append (y ∷ xs) ys x = ground (arith, has-append xs ys x)

pub Filled-append :
    (min max : ℕ) (xs ys : List ℕ)
    → Filled min max xs
    → Filled min max ys
    → Filled min max (xs ++ ys)
Filled-append min max xs ys (inside, (x, has_x)) (inside', _) = (
  λ z h. ground (arith, has-append xs ys z, inside z, inside' z),
  (x, ground (arith, has-append xs ys x)),
)

range_values-Filled :
    (start end step min max : ℕ)
    → 0 < step
    → IsModest max step
    → min ≤ start
    → end ≤ max
    → start ≤ end
    → Filled min max (range_values start end step)
range_values-Filled start end step min max h m low high order =
    let each = λ (x : ℕ). has-range_values start end step x h order (omega arith) in
    (
      λ x e. let (k, at, fits) = (each x).0 e in (omega arith, omega arith),
      (start, (each start).1 (0, omega arith, order)),
    )

abbrev FilledIn : ℕ → ℕ → Result CronError (List ℕ) → Type 0
FilledIn min max (ok values) = Filled min max values
FilledIn min max (err e) = Unit

bounded_range-FilledIn :
    (start end : ℤ) (min max step : ℕ)
    → 0 < step
    → IsModest max step
    → FilledIn min max (bounded_range start end min max step)
unfolding bounded_range
bounded_range-FilledIn (pos start) (pos end) min max step h m =
    elim (Bool-cases (ltb start min || ltb max end || ltb end start)) [
      | inl e ↦ rw e tt
      | inr e ↦ rw e (
          range_values-Filled start end step min max h m (ground arith) (ground arith)
            (ground arith))
    ]
bounded_range-FilledIn (pos start) (negsuc end) min max step h m = tt
bounded_range-FilledIn (negsuc start) end min max step h m = tt

bounded_value-FilledIn : (n : ℤ) (min max : ℕ) → FilledIn min max (bounded_value n min max)
unfolding bounded_value
bounded_value-FilledIn (pos n) min max = elim (Bool-cases (ltb n min || ltb max n)) [
  | inl e ↦ rw e tt
  | inr e ↦ rw e (λ x h. ground arith, (n, ground arith))
]
bounded_value-FilledIn (negsuc n) min max = tt

number_then-FilledIn :
    (e : CronError) (o : Option ℤ) (min max : ℕ) (f : ℤ → Result CronError (List ℕ))
    → ((n : ℤ) → FilledIn min max (f n))
    → FilledIn min max (number e o >>= f)
unfolding number
number_then-FilledIn e none min max f h = tt
number_then-FilledIn e (some n) min max f h = h n

parse_base-FilledIn :
    (part : Text) (min max step : ℕ)
    → 0 < step
    → IsModest max step
    → min ≤ max
    → FilledIn min max (parse_base part min max step)
unfolding parse_base
parse_base-FilledIn part min max step h m k = elim (Bool-cases (is_star part)) [
  | inl e ↦ rw e (range_values-Filled min max step min max h m (omega arith) (omega arith) k)
  | inr e ↦ rw e (split (cut_from b'-' [] part))
]
  where
    split :
        (o : Option (Text × Text))
        → FilledIn min max (elim o [
          | some (front, back) ↦ do
            start ← number CronError.invalid_range_start (atoi front)
            end ← number CronError.invalid_range_end (atoi back)
            bounded_range start end min max step
          | none ↦ do n ← number CronError.invalid_value (atoi part); bounded_value n min max
        ])
    split none =
        number_then-FilledIn _ (atoi part) min max _ (λ n. bounded_value-FilledIn n min max)
    split (some (front, back)) = number_then-FilledIn _ (atoi front) min max _ λ start.
        number_then-FilledIn _ (atoi back) min max _
          λ end. bounded_range-FilledIn start end min max step h m

split_step_pos : (part : Text) (base : Text × ℕ) → split_step part ≡ ok base → 0 < base.1
unfolding split_step
split_step_pos part base h = ground arith

FilledIn-eq_ok :
    {min max : ℕ} (r : Result CronError (List ℕ)) {values : List ℕ}
    → FilledIn min max r
    → r ≡ ok values
    → Filled min max values
FilledIn-eq_ok {min} {max} r h e = subst (FilledIn min max) e h

-- The part has a step that takes a sum from some upper bound to 2^63.
abbrev pub is_immodest : Text → Bool
is_immodest part = elim (split_step part) [ ok base ↦ leb (2 ^ 63) (59 + base.1) | err e ↦ false ]

pub parse_part-Filled :
    (part : Text) (min max : ℕ) (values : List ℕ)
    → min ≤ max
    → max ≤ 59
    → is_immodest part ≡ false
    → parse_part part min max ≡ ok values
    → Filled min max values
unfolding parse_part
parse_part-Filled part min max values k b m h =
    let (base, e, found) = bind_ok (split_step part) h in
    let low : leb (2 ^ 63) (59 + base.1) ≡ false = rw (e, is_immodest) at m in
    FilledIn-eq_ok (parse_base base.0 min max base.1)
      (parse_base-FilledIn base.0 min max base.1 (split_step_pos part base e) (ground arith) k)
      found
