-- ===== src/Server/Date/Calendar.antt =====
-- The Gregorian calendar, as a specification of days_to_ymd in crates/hoike-server/src/handlers.rs.
use hoike.Base.{
  ℕ, zero, suc, ◌+◌, ◌-◌, ◌*◌, ◌/◌, ◌%◌, ◌≤◌, ◌<◌, ◌≡◌, ◌⊎◌, refl, arith, Bool, Bool-cases, inl,
  inr, true, if◌then◌else◌, ltb, leb, ◌==◌, ◌&&◌, ◌||◌, not,
}
use hoike.Server.Date.{year_of_era, day_of_year, days_to_ymd}

unfoldable pub is_leap : ℕ → Bool
is_leap y = (y % 4 == 0 && not (y % 100 == 0)) || y % 400 == 0

unfoldable pub days_in_month : ℕ → ℕ → ℕ
unfolding is_leap
days_in_month y m =
    if m == 2
    then (if is_leap y then 29 else 28)
    else (if m == 4 || m == 6 || m == 9 || m == 11 then 30 else 31)

day_of_year_le : (doe : ℕ) → doe < 146097 → day_of_year doe ≤ 365
unfolding day_of_year year_of_era
day_of_year_le doe h = omega arith

leap_day : (doe : ℕ) → doe < 146097 → day_of_year doe ≡ 365 → is_leap (year_of_era doe + 1) ≡ true
unfolding day_of_year year_of_era is_leap
leap_day doe h e = ground arith

split_era : (z : ℕ) → z - z / 146097 * 146097 < 146097
split_era z = omega arith

leap_era : (y era : ℕ) → is_leap (y + era * 400) ≡ is_leap y
unfolding is_leap
leap_era y era = ground arith

-- A date of the calendar.
pub record IsDate (date : ℕ × ℕ × ℕ) : Type 0 where
  pub month_ge : 1 ≤ date.1
  pub month_le : date.1 ≤ 12
  pub day_ge : 1 ≤ date.2
  pub day_le : date.2 ≤ days_in_month date.0 date.1

-- mp is the month, counted from March.
day_le_days :
    (y doy : ℕ)
    → doy ≤ 365
    → (doy ≡ 365 → is_leap (y + 1) ≡ true)
    → (mp : ℕ) → mp ≡ (5 * doy + 2) / 153
    → let m = if ltb mp 10 then mp + 3 else mp - 9 in
      doy - (153 * mp + 2) / 5 + 1 ≤ days_in_month (if leb m 2 then y + 1 else y) m
unfolding days_in_month
day_le_days y doy h leap mp e = ground arith

-- The result of days_to_ymd is a date: its month is one of the twelve, and its day one of that month, with
-- the 29th of February in leap years alone.
pub days_to_ymd-IsDate : (days : ℕ) → IsDate (days_to_ymd days)
unfolding days_to_ymd
days_to_ymd-IsDate days =
    let z = days + 719468 in
    let era = z / 146097 in
    let doe = z - era * 146097 in
    let doy = day_of_year doe in
    let h = day_of_year_le doe (split_era z) in
    record {
      month_ge = ground arith;
      month_le = ground arith;
      day_ge = ground arith;
      day_le =
          day_le_days (year_of_era doe + era * 400) doy h
            (λ e. ground (arith, leap_era (year_of_era doe + 1) era, leap_day doe (split_era z) e))
            ((5 * doy + 2) / 153) refl;
    }

unfoldable pub next_day : ℕ × ℕ × ℕ → ℕ × ℕ × ℕ
unfolding days_in_month
next_day (y, m, d) =
    if ltb d (days_in_month y m)
    then (y, m, d + 1)
    else (if ltb m 12 then (y, m + 1, 1) else (y + 1, 1, 1))

-- yoe and doy of the next day of an era.
next_doe :
    (doe : ℕ)
    → doe + 1 < 146097
    → ((year_of_era (doe + 1) ≡ year_of_era doe) × (day_of_year (doe + 1) ≡ day_of_year doe + 1))
      ⊎ ((year_of_era (doe + 1) ≡ year_of_era doe + 1)
          × ((day_of_year (doe + 1) ≡ 0)
              × (day_of_year doe ≡ (if is_leap (year_of_era doe + 1) then 365 else 364))))
unfolding day_of_year year_of_era is_leap
next_doe doe h = elim (Bool-cases ((year_of_era (doe + 1)) == (year_of_era doe))) [
  | inl e ↦ inl (ground arith, ground arith)
  | inr e ↦ inr (ground arith, (ground arith, ground arith))
]

-- The date of a day of a year that starts in March.
date_of : ℕ → ℕ → ℕ × ℕ × ℕ
date_of y doy =
    let mp = (5 * doy + 2) / 153 in
    let d = doy - (153 * mp + 2) / 5 + 1 in
    let m = if ltb mp 10 then mp + 3 else mp - 9 in (if leb m 2 then y + 1 else y, m, d)

next_in_year :
    (y doy : ℕ)
    → doy < 365
    → (doy ≡ 364 → is_leap (y + 1) ≡ true)
    → date_of y (doy + 1) ≡ next_day (date_of y doy)
unfolding date_of next_day days_in_month
next_in_year y doy h leap = ground arith

next_at_end :
    (y : ℕ) → date_of (y + 1) 0 ≡ next_day (date_of y (if is_leap (y + 1) then 365 else 364))
unfolding date_of next_day days_in_month
next_at_end y = ground arith

year_at : ℕ → ℕ
year_at z = let era = z / 146097 in year_of_era (z - era * 146097) + era * 400

day_at : ℕ → ℕ
day_at z = day_of_year (z - z / 146097 * 146097)

day_at_le : (z : ℕ) → day_at z ≤ 365
unfolding day_at
day_at_le z = day_of_year_le (z - z / 146097 * 146097) (split_era z)

leap_day_at : (z : ℕ) → day_at z ≡ 365 → is_leap (year_at z + 1) ≡ true
unfolding day_at year_at
leap_day_at z e =
    let era = z / 146097 in
    let doe = z - era * 146097 in
    ground (arith, leap_era (year_of_era doe + 1) era, leap_day doe (split_era z) e)

at_era_end :
    (year_of_era 146096 ≡ 399)
    × (day_of_year 146096 ≡ 365)
    × (year_of_era 0 ≡ 0)
    × (day_of_year 0 ≡ 0)
unfolding day_of_year year_of_era
at_era_end = (refl, refl, refl, refl)

era_end :
    (z next : ℕ)
    → next ≡ z + 1
    → z - z / 146097 * 146097 ≡ 146096
    → (year_at next ≡ year_at z + 1) × (day_at next ≡ 0) × (day_at z ≡ 365)
unfolding day_at year_at
era_end z next n e =
    let q : next / 146097 ≡ z / 146097 + 1 = omega arith in
    let r : next - next / 146097 * 146097 ≡ 0 = omega arith in
    (
      ground (arith, at_era_end, q, r),
      ground (arith, at_era_end, q, r),
      ground (arith, at_era_end, e),
    )

next_at :
    (z next : ℕ)
    → next ≡ z + 1
    → ((year_at next ≡ year_at z) × (day_at next ≡ day_at z + 1))
      ⊎ ((year_at next ≡ year_at z + 1)
          × ((day_at next ≡ 0) × (day_at z ≡ (if is_leap (year_at z + 1) then 365 else 364))))
unfolding day_at year_at
next_at z next n =
    let era = z / 146097 in
    let doe = z - era * 146097 in
    elim (Bool-cases (ltb (doe + 1) 146097)) [
      | inl t ↦
          let lt : doe + 1 < 146097 = ground arith in
          let q : next / 146097 ≡ era = omega arith in
          let r : next - next / 146097 * 146097 ≡ doe + 1 = omega arith in
          elim (next_doe doe lt) [
            | inl (a, b) ↦ inl (ground arith, ground arith)
            | inr (a, (b, c)) ↦
                inr
                  (ground arith, (ground arith, ground (arith, leap_era (year_of_era doe + 1) era)))
          ]
      | inr f ↦
          let (a, b, c) = era_end z next n (ground arith) in
          inr (a, (b, ground (arith, c, leap_day_at z c)))
    ]

next_date :
    (z next : ℕ)
    → next ≡ z + 1
    → date_of (year_at next) (day_at next) ≡ next_day (date_of (year_at z) (day_at z))
next_date z next n = elim (next_at z next n) [
  | inl (e, f) ↦
      let h : day_at z < 365 = ground (arith, day_at_le next) in
      let leap : day_at z ≡ 364 → is_leap (year_at z + 1) ≡ true =
        λ i. ground (arith, leap_day_at next, e) in
      ground (arith, next_in_year (year_at z) (day_at z) h leap)
  | inr (e, (f, g)) ↦ ground (arith, next_at_end (year_at z))
]

pub next_day_lem :
    (days next : ℕ) → next ≡ days + 1 → days_to_ymd next ≡ next_day (days_to_ymd days)
unfolding days_to_ymd date_of year_at day_at
next_day_lem days next n = next_date (days + 719468) (next + 719468) (omega arith)

pub epoch : days_to_ymd 0 ≡ (1970, 1, 1)
unfolding days_to_ymd year_of_era day_of_year
epoch = refl

-- The calendar, day by day.
pub date_after : ℕ → ℕ × ℕ × ℕ
unfolding next_day
date_after zero = (1970, 1, 1)
date_after (suc days) = next_day (date_after days)

-- days_to_ymd gives the date that the calendar reaches from 1970-01-01 in that many days, one day after
-- another, in months of their lengths and with the leap years of the Gregorian rule.
pub days_to_ymd-date_after : (days : ℕ) → days_to_ymd days ≡ date_after days
unfolding date_after
days_to_ymd-date_after zero = epoch
days_to_ymd-date_after (suc days) =
    rw (days_to_ymd-date_after days) at (next_day_lem days (suc days) (omega arith))
