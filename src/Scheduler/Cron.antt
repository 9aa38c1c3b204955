-- ===== src/Scheduler/Cron.antt =====
-- The 5-field cron parser of scheduler.go. A text is the list of its bytes, which are ASCII; a field
-- is the list of its values, where Go has a map from each to `true`. A value is the 64-bit pattern of
-- a Go int, since the loops add a step of any size: from 2^63 on it stands for a negative one.
pub mod Ranges
pub mod Rounds
pub mod Fields
use durable_integrations.Prelude.{
  ℕ, zero, suc, ◌+◌, ◌-◌, ◌*◌, ◌%◌, ◌^◌, Bool, true, false, ◌&&◌, ◌||◌, Option, none, some, List,
  [], ◌∷◌, ◌++◌, ltb, leb, ◌==◌, if◌then◌else◌, length, any,
}
unfoldable pub use durable_integrations.Prelude.Bytes.{Text, cut_from}
use durable_integrations.Prelude.Int.{ℤ, pos, negsuc, neg, ltbℤ}
use durable_integrations.Prelude.Result.{Result, ok, err, ◌>>=◌}

pub data CronError : Type 0 where
  field_count : ℕ → CronError
  invalid_step invalid_range_start invalid_range_end invalid_value : CronError
  out_of_bounds : CronError
  no_match : CronError

-- `unicode.IsSpace` on ASCII.
is_space : ℕ → Bool
is_space c = (c == 32) || (leb 9 c && leb c 13)

-- A finished word goes in front, unless it is empty.
abbrev word_before : Text → List Text → List Text
word_before [] words = words
word_before (c ∷ cs) words = (c ∷ cs) ∷ words

-- `strings.Fields`, with the word that is being read; it trims too.
unfoldable pub fields_from : Text → Text → List Text
unfolding is_space
fields_from word [] = word_before word []
fields_from word (c ∷ cs) =
    let next = word_before word (fields_from [] cs) in
    let more = fields_from (word ++ c ∷ []) cs in if is_space c then next else more

-- `strings.Split` at a byte.
unfoldable pub split_from : ℕ → Text → Text → List Text
split_from sep part [] = part ∷ []
split_from sep part (c ∷ cs) =
    let next = part ∷ split_from sep [] cs in
    let more = split_from sep (part ++ c ∷ []) cs in if c == sep then next else more

-- The digits of `strconv.Atoi`, up to a limit.
digits_from : ℕ → ℕ → Text → Option ℕ
digits_from limit n [] = if leb n limit then some n else none
digits_from limit n (c ∷ cs) =
    let more = digits_from limit (n * 10 + (c - b'0')) cs in
    if leb b'0' c && leb c b'9' then more else none

digits : ℕ → Text → Option ℕ
unfolding digits_from
digits limit [] = none
digits limit (c ∷ cs) = digits_from limit 0 (c ∷ cs)

abbrev as_pos : Option ℕ → Option ℤ
as_pos none = none
as_pos (some n) = some (pos n)

abbrev as_neg : Option ℕ → Option ℤ
as_neg none = none
as_neg (some n) = some (neg n)

-- `strconv.Atoi`: an optional sign and decimal digits, within 64 bits.
unfoldable pub atoi : Text → Option ℤ
unfolding digits
atoi [] = none
atoi (c ∷ cs) =
    if c == b'-'
    then as_neg (digits (2 ^ 63) cs)
    else if c == b'+'
    then as_pos (digits (2 ^ 63 - 1) cs)
    else as_pos (digits (2 ^ 63 - 1) (c ∷ cs))

-- `v <= end` of 64-bit patterns, for an `end` that is not negative.
unfoldable pub signed_leb : ℕ → ℕ → Bool
signed_leb v end = leb (2 ^ 63) v || leb v end

-- `for v := start; v <= end; v += step`, with the sum in 64 bits.
unfoldable pub values_from : ℕ → ℕ → ℕ → ℕ → List ℕ
unfolding signed_leb
values_from zero v end step = []
values_from (suc rounds) v end step =
    let rest = values_from rounds ((v + step) % 2 ^ 64) end step in
    if signed_leb v end then v ∷ rest else []

-- The rounds are at most end + 4, also when the sum wraps around.
unfoldable pub range_values : ℕ → ℕ → ℕ → List ℕ
unfolding values_from
range_values start end step = values_from (end + 4) start end step

-- A step is a positive number.
positive : Option ℤ → Result CronError ℕ
positive (some (pos (suc n))) = ok (suc n)
positive _ = err CronError.invalid_step

-- `stepParts`: the part before the slash, and the step.
unfoldable pub split_step : Text → Result CronError (Text × ℕ)
unfolding positive
split_step part = elim (cut_from b'/' [] part) [
  | none ↦ ok (part, 1)
  | some (front, back) ↦ positive (atoi back) >>= λ step. ok (front, step)
]

number : CronError → Option ℤ → Result CronError ℤ
number e none = err e
number e (some n) = ok n

-- A range that is in bounds.
unfoldable pub bounded_range : ℤ → ℤ → ℕ → ℕ → ℕ → Result CronError (List ℕ)
bounded_range (pos start) (pos end) min max step =
    if ltb start min || ltb max end || ltb end start
    then err CronError.out_of_bounds
    else ok (range_values start end step)
bounded_range _ _ min max step = err CronError.out_of_bounds

unfoldable pub bounded_value : ℤ → ℕ → ℕ → Result CronError (List ℕ)
bounded_value (pos n) min max =
    if ltb n min || ltb max n then err CronError.out_of_bounds else ok (n ∷ [])
bounded_value (negsuc n) min max = err CronError.out_of_bounds

is_star : Text → Bool
is_star (c ∷ []) = c == b'*'
is_star _ = false

unfoldable pub parse_base : Text → ℕ → ℕ → ℕ → Result CronError (List ℕ)
unfolding number is_star
parse_base part min max step =
    if is_star part then ok (range_values min max step) else elim (cut_from b'-' [] part) [
      | some (front, back) ↦ do
        start ← number CronError.invalid_range_start (atoi front)
        end ← number CronError.invalid_range_end (atoi back)
        bounded_range start end min max step
      | none ↦ do n ← number CronError.invalid_value (atoi part); bounded_value n min max
    ]

unfoldable pub parse_part : Text → ℕ → ℕ → Result CronError (List ℕ)
parse_part part min max = do base ← split_step part; parse_base base.0 min max base.1

unfoldable pub parse_parts : List Text → ℕ → ℕ → Result CronError (List ℕ)
parse_parts [] min max = ok []
parse_parts (part ∷ rest) min max = do
  values ← parse_part part min max
  more ← parse_parts rest min max
  ok (values ++ more)

-- `parseSingleField`: the parts between commas.
unfoldable pub parse_single_field : Text → ℕ → ℕ → Result CronError (List ℕ)
parse_single_field field min max = parse_parts (split_from b',' [] field) min max

pub record CronFields : Type 0 where
  pub minutes : List ℕ
  pub hours : List ℕ
  pub days : List ℕ
  pub months : List ℕ
  pub weekdays : List ℕ

unfoldable pub parse_fields : List Text → Result CronError CronFields
parse_fields (f0 ∷ f1 ∷ f2 ∷ f3 ∷ f4 ∷ []) = do
  minutes ← parse_single_field f0 0 59
  hours ← parse_single_field f1 0 23
  days ← parse_single_field f2 1 31
  months ← parse_single_field f3 1 12
  weekdays ← parse_single_field f4 0 6
  ok (record {
    minutes = minutes;
    hours = hours;
    days = days;
    months = months;
    weekdays = weekdays;
  })
parse_fields fields = err (CronError.field_count (length fields))

unfoldable pub parse_cron_expr : Text → Result CronError CronFields
parse_cron_expr expr = parse_fields (fields_from [] expr)

-- `values[v]`
abbrev pub has : List ℕ → ℕ → Bool
has values v = any (λ x. x == v) values
