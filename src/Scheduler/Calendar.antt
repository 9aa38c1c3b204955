-- ===== src/Scheduler/Calendar.antt =====
-- The civil calendar as Go's `time.Date` and `Time.Add` compute it: the proleptic Gregorian
-- calendar, at a location whose offset from UTC does not change.
use durable_integrations.Prelude.{
  ℕ, zero, suc, ◌+◌, ◌-◌, ◌*◌, ◌/◌, ◌%◌, ◌≤◌, ◌<◌, ◌≡◌, inl, inr, Bool, ◌&&◌, ◌||◌, not, ltb, ◌==◌,
  if◌then◌else◌, arith, List, [], ◌∷◌, get_or, Bool-cases, subst,
}

-- One minute. Months and days count from 1; day 0 of the week is Sunday.
pub record Civil : Type 0 where
  pub year : ℕ
  pub month : ℕ
  pub day : ℕ
  pub hour : ℕ
  pub minute : ℕ

unfoldable pub is_leap : ℕ → Bool
is_leap y = (y % 4 == 0) && (not (y % 100 == 0) || (y % 400 == 0))

abbrev month_lengths : List ℕ
month_lengths = 31 ∷ 28 ∷ 31 ∷ 30 ∷ 31 ∷ 30 ∷ 31 ∷ 31 ∷ 30 ∷ 31 ∷ 30 ∷ 31 ∷ []

unfoldable pub days_in_month : ℕ → ℕ → ℕ
unfolding is_leap
days_in_month y m = if (m == 2) && is_leap y then 29 else get_or month_lengths (m - 1) 31

-- Days before the month, in a year that is no leap year.
abbrev days_before : ℕ → ℕ
days_before m =
    get_or (0 ∷ 31 ∷ 59 ∷ 90 ∷ 120 ∷ 151 ∷ 181 ∷ 212 ∷ 243 ∷ 273 ∷ 304 ∷ 334 ∷ []) (m - 1) 0

-- 1 January of the year 1 was a Monday.
unfoldable pub weekday : Civil → ℕ
unfolding is_leap
weekday t =
    let y = t.year - 1 in
    let leap_day : ℕ = if is_leap t.year && ltb 2 t.month then 1 else 0 in
    (y * 365 + y / 4 - y / 100 + y / 400 + days_before t.month + leap_day + t.day) % 7

-- `time.Date(year, month+1, 1, 0, 0, 0, 0, loc)`
unfoldable pub next_month : Civil → Civil
next_month t =
    if t.month == 12
    then record { year = t.year + 1; month = 1; day = 1; hour = 0; minute = 0 }
    else record { year = t.year; month = t.month + 1; day = 1; hour = 0; minute = 0 }

-- `time.Date(year, month, day+1, 0, 0, 0, 0, loc)`
unfoldable pub next_day : Civil → Civil
unfolding next_month
next_day t =
    if ltb t.day (days_in_month t.year t.month)
    then record { year = t.year; month = t.month; day = t.day + 1; hour = 0; minute = 0 }
    else next_month t

-- `time.Date(year, month, day, hour+1, 0, 0, 0, loc)`
unfoldable pub next_hour : Civil → Civil
unfolding next_day
next_hour t = if ltb t.hour 23 then record t { hour = t.hour + 1; minute = 0 } else next_day t

-- `t.Add(time.Minute)`
unfoldable pub next_minute : Civil → Civil
unfolding next_hour
next_minute t = if ltb t.minute 59 then record t { minute = t.minute + 1 } else next_hour t

-- A minute that the calendar has.
pub record IsCivil (t : Civil) : Type 0 where
  pub month_low : 1 ≤ t.month
  pub month_high : t.month ≤ 12
  pub day_low : 1 ≤ t.day
  pub day_high : t.day ≤ days_in_month t.year t.month
  pub day_bound : t.day ≤ 31
  pub hour_high : t.hour ≤ 23
  pub minute_high : t.minute ≤ 59

-- The order of minutes: a number that grows with the date and the time.
abbrev pub key : Civil → ℕ
key t = t.year * 599040 + t.month * 46080 + t.day * 1440 + t.hour * 60 + t.minute

abbrev Between : ℕ → ℕ → List ℕ → Type 0
Between lo hi [] = Unit
Between lo hi (x ∷ xs) = (lo ≤ x) × (x ≤ hi) × Between lo hi xs

value_in_month :
    (lo hi : ℕ) (xs : List ℕ) (i d : ℕ)
    → Between lo hi xs
    → lo ≤ d
    → d ≤ hi
    → (lo ≤ get_or xs i d) × (get_or xs i d ≤ hi)
value_in_month lo hi [] i d b p q = (p, q)
value_in_month lo hi (x ∷ xs) zero d b p q = (b.0, b.1)
value_in_month lo hi (x ∷ xs) (suc i) d b p q = value_in_month lo hi xs i d b.2 p q

days_in_month_bounds : (y m : ℕ) → (28 ≤ days_in_month y m) × (days_in_month y m ≤ 31)
unfolding days_in_month
days_in_month_bounds y m = elim (Bool-cases ((m == 2) && is_leap y)) [
  | inl e ↦ rw e (omega arith)
  | inr e ↦
      rw e (value_in_month 28 31 month_lengths (m - 1) 31 (omega arith) (omega arith) (omega arith))
]

pub key-next_month : (t : Civil) → IsCivil t → key t < key (next_month t)
unfolding next_month
key-next_month t v = ground arith

pub key-next_day : (t : Civil) → IsCivil t → key t < key (next_day t)
unfolding next_day
key-next_day t v = ground arith

pub key-next_hour : (t : Civil) → IsCivil t → key t < key (next_hour t)
unfolding next_hour
key-next_hour t v = ground arith

pub key-next_minute : (t : Civil) → IsCivil t → key t < key (next_minute t)
unfolding next_minute
key-next_minute t v = ground arith

pub next_month-IsCivil : (t : Civil) → IsCivil t → IsCivil (next_month t)
unfolding next_month
next_month-IsCivil t v =
    ground (arith, days_in_month_bounds (t.year + 1) 1, days_in_month_bounds t.year (t.month + 1))

pub next_day-IsCivil : (t : Civil) → IsCivil t → IsCivil (next_day t)
unfolding next_day
next_day-IsCivil t v = ground (arith, next_month-IsCivil t v, days_in_month_bounds t.year t.month)

pub next_hour-IsCivil : (t : Civil) → IsCivil t → IsCivil (next_hour t)
unfolding next_hour
next_hour-IsCivil t v = ground (arith, next_day-IsCivil t v)

pub next_minute-IsCivil : (t : Civil) → IsCivil t → IsCivil (next_minute t)
unfolding next_minute
next_minute-IsCivil t v = ground (arith, next_hour-IsCivil t v)

-- What a step jumps over has the month, the day, the hour or the minute of where it started.
pub skipped_month :
    (t u : Civil)
    → IsCivil t
    → IsCivil u
    → key t ≤ key u
    → key u < key (next_month t)
    → (u.year ≡ t.year) × (u.month ≡ t.month)
unfolding next_month
skipped_month t u v w p q = ground arith

pub skipped_day :
    (t u : Civil)
    → IsCivil t
    → IsCivil u
    → key t ≤ key u
    → key u < key (next_day t)
    → (u.year ≡ t.year) × (u.month ≡ t.month) × (u.day ≡ t.day)
unfolding next_day
skipped_day t u v w p q = elim (Bool-cases (ltb t.day (days_in_month t.year t.month))) [
  | inl e ↦ ground arith
  | inr e ↦
      let same = skipped_month t u v w p (rw e at q) in
      let last : u.day ≤ days_in_month t.year t.month =
        subst (λ m. u.day ≤ days_in_month t.year m) same.1
          (subst (λ y. u.day ≤ days_in_month y u.month) same.0 w.day_high) in
      ground arith
]

pub skipped_hour :
    (t u : Civil)
    → IsCivil t
    → IsCivil u
    → key t ≤ key u
    → key u < key (next_hour t)
    → (u.year ≡ t.year) × (u.month ≡ t.month) × (u.day ≡ t.day) × (u.hour ≡ t.hour)
unfolding next_hour
skipped_hour t u v w p q = elim (Bool-cases (ltb t.hour 23)) [
  | inl e ↦ ground arith
  | inr e ↦ let same = skipped_day t u v w p (rw e at q) in ground arith
]

pub skipped_minute :
    (t u : Civil)
    → IsCivil t
    → IsCivil u
    → key t ≤ key u
    → key u < key (next_minute t)
    → (u.year ≡ t.year)
      × (u.month ≡ t.month)
      × (u.day ≡ t.day)
      × (u.hour ≡ t.hour)
      × (u.minute ≡ t.minute)
unfolding next_minute
skipped_minute t u v w p q = elim (Bool-cases (ltb t.minute 59)) [
  | inl e ↦ ground arith
  | inr e ↦ let same = skipped_hour t u v w p (rw e at q) in ground arith
]
