-- ===== src/Scheduler/Search/Earliest.antt =====
-- The minute that the search returns is the earliest that matches.
use native.Mathlib.Nat.{le_trans, le_of_lt}
use durable_integrations.Prelude.{
  ℕ, zero, suc, ◌+◌, ◌≤◌, ◌<◌, ◌≡◌, inl, inr, true, false, arith, Bool-cases, ltb, ltb→lt, ap, ◌∙◌,
  subst,
}
use durable_integrations.Prelude.Result.{Result, ok, err, bind_ok}
use durable_integrations.Scheduler.Calendar.{
  Civil, IsCivil, key, weekday, next_minute, key-next_month, key-next_day, key-next_hour,
  key-next_minute, next_month-IsCivil, next_day-IsCivil, next_hour-IsCivil, next_minute-IsCivil,
  skipped_month, skipped_day, skipped_hour, skipped_minute,
}
use durable_integrations.Scheduler.Cron.{Text, CronError, CronFields, parse_cron_expr, has}
use durable_integrations.Scheduler.Search.{
  Moment, matches, matches_day, advance, search, max_iterations, next_cron_time,
}

module _ (fields : CronFields) where
  advance-IsCivil : (t : Civil) → IsCivil t → IsCivil (advance fields t)
  unfolding advance
  advance-IsCivil t v = elim (Bool-cases (has fields.months t.month)) [
    | inr a ↦ rw a (next_month-IsCivil t v)
    | inl a ↦ elim (Bool-cases (matches_day fields t)) [
      | inr b ↦ rw (a, b) (next_day-IsCivil t v)
      | inl b ↦ elim (Bool-cases (has fields.hours t.hour)) [
        | inr c ↦ rw (a, b, c) (next_hour-IsCivil t v)
        | inl c ↦ rw (a, b, c) (next_minute-IsCivil t v)
      ]
    ]
  ]

  key-advance : (t : Civil) → IsCivil t → key t < key (advance fields t)
  unfolding advance
  key-advance t v =
      ground (arith, key-next_month t v, key-next_day t v, key-next_hour t v, key-next_minute t v)

  -- The days of two minutes of one date are judged alike.
  same_date :
      (t u : Civil)
      → u.year ≡ t.year
      → u.month ≡ t.month
      → u.day ≡ t.day
      → matches_day fields u ≡ matches_day fields t
  unfolding weekday
  same_date t u y m d = cc

  -- Nothing that a step jumps over matches.
  advance_skips :
      (t u : Civil)
      → IsCivil t
      → IsCivil u
      → matches fields t ≡ false
      → key t ≤ key u
      → key u < key (advance fields t)
      → matches fields u ≡ false
  unfolding advance
  advance_skips t u v w e p q = elim (Bool-cases (has fields.months t.month)) [
    | inr a ↦
        let same = skipped_month t u v w p (rw a at q) in
        let no_month : has fields.months u.month ≡ false = ap (has fields.months) same.1 ∙ a in
        rw no_month
    | inl a ↦ elim (Bool-cases (matches_day fields t)) [
      | inr b ↦
          let same = skipped_day t u v w p (rw (a, b) at q) in
          let no_day : matches_day fields u ≡ false = same_date t u same.0 same.1 same.2 ∙ b in
          ground arith
      | inl b ↦ elim (Bool-cases (has fields.hours t.hour)) [
        | inr c ↦
            let same = skipped_hour t u v w p (rw (a, b, c) at q) in
            let no_hour : has fields.hours u.hour ≡ false = ap (has fields.hours) same.3 ∙ c in
            ground arith
        | inl c ↦
            let same = skipped_minute t u v w p (rw (a, b, c) at q) in
            let no_minute : has fields.minutes t.minute ≡ false = ground arith in
            let none : has fields.minutes u.minute ≡ false =
              ap (has fields.minutes) same.4 ∙ no_minute in
            ground arith
      ]
    ]
  ]

  -- No minute from `t` up to `stop`, without `stop`, matches.
  abbrev pub NoneBetween : ℕ → ℕ → Type 0
  NoneBetween low high =
      (u : Civil) → IsCivil u → low ≤ key u → key u < high → matches fields u ≡ false

  none_before_advance :
      (t : Civil) (high : ℕ)
      → IsCivil t
      → matches fields t ≡ false
      → NoneBetween (key (advance fields t)) high
      → NoneBetween (key t) high
  none_before_advance t high v e later u w p q =
      elim (Bool-cases (ltb (key u) (key (advance fields t)))) [
        | inl early ↦ advance_skips t u v w e p (ltb→lt (key u) (key (advance fields t)) early)
        | inr late ↦ later u w (ground arith) q
      ]

  -- What a result of the search from `t`, with so much fuel, says.
  abbrev pub Found : ℕ → Civil → Result CronError Civil → Type 0
  Found fuel t (ok r) =
      (matches fields r ≡ true) × IsCivil r × (key t ≤ key r) × NoneBetween (key t) (key r)
  Found fuel t (err e) = NoneBetween (key t) (key t + fuel)

  Found-advance :
      (fuel : ℕ) (t : Civil) (r : Result CronError Civil)
      → IsCivil t
      → matches fields t ≡ false
      → Found fuel (advance fields t) r
      → Found (suc fuel) t r
  Found-advance fuel t (ok r) v e (hit, civil, low, none) = (
    hit,
    civil,
    le_trans (le_of_lt (key-advance t v)) low,
    none_before_advance t (key r) v e none,
  )
  Found-advance fuel t (err c) v e none =
      none_before_advance t (key t + suc fuel) v e
        (λ u w p q. none u w p (let h = key-advance t v in omega arith))

  pub search-Found : (fuel : ℕ) (t : Civil) → IsCivil t → Found fuel t (search fuel fields t)
  unfolding search
  search-Found zero t v = λ u w p q. absurd (omega arith)
  search-Found (suc fuel) t v = elim (Bool-cases (matches fields t)) [
    | inl e ↦ rw e (e, v, omega arith, λ u w p q. absurd (omega arith))
    | inr e ↦ rw e (
        Found-advance fuel t (search fuel fields (advance fields t)) v e
          (search-Found fuel (advance fields t) (advance-IsCivil t v)))
  ]

-- `next_minute` is the next minute that the calendar has.
next_minute_le : (t u : Civil) → IsCivil t → IsCivil u → key t < key u → key (next_minute t) ≤ key u
next_minute_le t u v w p = elim (Bool-cases (ltb (key u) (key (next_minute t)))) [
  | inl early ↦
      let same = skipped_minute t u v w (le_of_lt p) (ltb→lt (key u) _ early) in
      absurd (omega arith)
  | inr late ↦ ground arith
]

-- If the expression is accepted and a time is found, then that time is a minute of the calendar,
-- strictly after the minute of `after`, that matches all five fields, and no minute in between
-- does.
pub next_cron_time-Earliest :
    (expr : Text) (after : Moment) (r : Civil)
    → IsCivil after.at
    → next_cron_time expr after ≡ ok r
    → (fields : CronFields) × (parse_cron_expr expr ≡ ok fields)
      × (matches fields r ≡ true)
      × IsCivil r
      × (key after.at < key r)
      × ((u : Civil) → IsCivil u → key after.at < key u → key u < key r → matches fields u ≡ false)
unfolding next_cron_time
next_cron_time-Earliest expr after r v h =
    let (fields, e, found) = bind_ok (parse_cron_expr expr) h in
    let first = next_minute after.at in
    let civil = next_minute-IsCivil after.at v in
    let (hit, at, low, none) =
      subst (Found fields max_iterations first) found
        (search-Found fields max_iterations first civil) in
    (
      fields,
      e,
      hit,
      at,
      le_trans (key-next_minute after.at v) low,
      λ u w p q. none u w (next_minute_le after.at u v w p) q,
    )

-- If the expression is accepted and no time is found, then no minute matches whose key is within
-- the number of rounds of the next minute's; the key grows by at least one with each minute.
pub next_cron_time_fails :
    (expr : Text) (after : Moment) (fields : CronFields) (c : CronError)
    → IsCivil after.at
    → parse_cron_expr expr ≡ ok fields
    → next_cron_time expr after ≡ err c
    → (u : Civil) → IsCivil u
    → key after.at < key u
    → key u < key (next_minute after.at) + max_iterations
    → matches fields u ≡ false
unfolding next_cron_time
next_cron_time_fails expr after fields c v e h u w p q =
    let first = next_minute after.at in
    let civil = next_minute-IsCivil after.at v in
    let stopped : search max_iterations fields first ≡ err c = rw e at h in
    subst (Found fields max_iterations first) stopped
      (search-Found fields max_iterations first civil) u w (next_minute_le after.at u v w p) q
