-- ===== src/Sign/Time/RoundTrip.antt =====
-- datetime_to_epoch and epoch_to_datetime of crates/hoike-sign/src/generate.rs undo one another.
use hoike.Base.{
  ℕ, zero, suc, ◌+◌, ◌-◌, ◌/◌, ◌%◌, ◌≡◌, ◌≤◌, ◌<◌, refl, ap, sym, ◌∙◌, arith, ok, Bool, Bool-cases,
  inl, inr, ltb, if◌then◌else◌,
}
use hoike.Server.Date.{days_to_ymd}
use hoike.Server.Date.Calendar.{
  days_in_month, next_day, next_day_lem, IsDate, days_to_ymd-IsDate, is_leap, epoch,
}
use hoike.Sign.Time.{
  DateTime, is_long, days_of_years, days_of_months, month_length, datetime_to_epoch,
  epoch_to_datetime,
}

abbrev days_of : ℕ × ℕ × ℕ → ℕ
days_of (y, m, d) = days_of_years (y - 1970) + days_of_months y (m - 1) + (d - 1)

month_length-days_in_month : (y m : ℕ) → 1 ≤ m → m ≤ 12 → month_length y m ≡ days_in_month y m
unfolding days_in_month is_leap
month_length-days_in_month y zero h k = absurd (omega arith)
month_length-days_in_month y (suc zero) h k = ground arith
month_length-days_in_month y (suc (suc zero)) h k = ground arith
month_length-days_in_month y (suc (suc (suc zero))) h k = ground arith
month_length-days_in_month y (suc (suc (suc (suc zero)))) h k = ground arith
month_length-days_in_month y (suc (suc (suc (suc (suc zero))))) h k = ground arith
month_length-days_in_month y (suc (suc (suc (suc (suc (suc zero)))))) h k = ground arith
month_length-days_in_month y (suc (suc (suc (suc (suc (suc (suc zero))))))) h k = ground arith
month_length-days_in_month y (suc (suc (suc (suc (suc (suc (suc (suc zero)))))))) h k = ground arith
month_length-days_in_month y (suc (suc (suc (suc (suc (suc (suc (suc (suc zero))))))))) h k =
    ground arith
month_length-days_in_month y (suc (suc (suc (suc (suc (suc (suc (suc (suc (suc zero)))))))))) h k =
    ground arith
month_length-days_in_month y (suc (suc (suc (suc (suc (suc (suc (suc (suc (suc (suc zero)))))))))))
      h k =
    ground arith
month_length-days_in_month y
      (suc (suc (suc (suc (suc (suc (suc (suc (suc (suc (suc (suc zero)))))))))))) h k =
    ground arith
month_length-days_in_month y
      (suc (suc (suc (suc (suc (suc (suc (suc (suc (suc (suc (suc (suc n))))))))))))) h k =
    absurd (omega arith)

-- The twelve months of a year.
year_length : (y : ℕ) → days_of_months y 11 + 31 ≡ (if is_long y then 366 else 365)
unfolding days_of_months
year_length y = ground arith

next_month :
    (y m d : ℕ)
    → IsDate (y, m, d)
    → d ≡ days_in_month y m
    → m < 12
    → days_of (y, m + 1, 1) ≡ days_of (y, m, d) + 1
unfolding days_of_months
next_month y zero d i e h = absurd (omega (arith, i.month_ge))
next_month y (suc m) d i e h =
    let l = month_length-days_in_month y (suc m) i.month_ge i.month_le in
    let here : days_of_months y (suc m + 1 - 1) ≡ days_of_months y m + month_length y (suc m) =
      let q : suc m + 1 - 1 ≡ suc m = omega arith in ap (days_of_months y) q in
    let before : days_of_months y (suc m - 1) ≡ days_of_months y m =
      let q : suc m - 1 ≡ m = omega arith in ap (days_of_months y) q in
    omega (arith, here, before, l, e, i.day_ge)

next_year :
    (y m d : ℕ)
    → IsDate (y, m, d)
    → 1970 ≤ y
    → d ≡ days_in_month y m
    → m ≡ 12
    → days_of (y + 1, 1, 1) ≡ days_of (y, m, d) + 1
unfolding days_of_months days_of_years
next_year y m d i h e k =
    let n : days_of_years (y + 1 - 1970)
        ≡ days_of_years (y - 1970) + (if is_long (1970 + (y - 1970)) then 366 else 365) =
      let q : y + 1 - 1970 ≡ suc (y - 1970) = omega arith in ap days_of_years q in
    let same : 1970 + (y - 1970) ≡ y = omega arith in
    let long : (if is_long (1970 + (y - 1970)) then 366 else 365) ≡ days_of_months y 11 + 31 =
      ap (λ (x : ℕ). if is_long x then 366 else 365) same ∙ sym (year_length y) in
    let months : days_of_months y (m - 1) ≡ days_of_months y 11 =
      let q : m - 1 ≡ 11 = omega arith in ap (days_of_months y) q in
    let december : days_in_month y m ≡ 31 =
      ap (days_in_month y) k ∙ sym (month_length-days_in_month y 12 (omega arith) (omega arith)) in
    omega (arith, n, long, months, december, e, i.day_ge)

days_of-next_day :
    (y m d : ℕ)
    → IsDate (y, m, d)
    → 1970 ≤ y
    → (days_of (next_day (y, m, d)) ≡ days_of (y, m, d) + 1) × (1970 ≤ (next_day (y, m, d)).0)
unfolding next_day
days_of-next_day y m d i h = elim (Bool-cases (ltb d (days_in_month y m))) [
  | inl t ↦ rw t (ground arith, h)
  | inr f ↦ elim (Bool-cases (ltb m 12)) [
    | inl t ↦ rw (f, t) (next_month y m d i (ground arith) (ground arith), h)
    | inr g ↦ rw (f, g) (next_year y m d i h (ground arith) (ground arith), omega arith)
  ]
]

days_of-days_to_ymd :
    (days : ℕ) → (days_of (days_to_ymd days) ≡ days) × (1970 ≤ (days_to_ymd days).0)
unfolding days_of_years days_of_months
days_of-days_to_ymd zero = rw epoch (refl, omega arith)
days_of-days_to_ymd (suc days) =
    let (same, after) = days_of-days_to_ymd days in
    let (y, m, d) = days_to_ymd days in
    rw (next_day_lem days (suc days) (omega arith)) (
      let (next, later) =
        days_of-next_day (days_to_ymd days).0 (days_to_ymd days).1 (days_to_ymd days).2
          (days_to_ymd-IsDate days) after in
      (omega (arith, next, same), later))

days_in_month_le : (y m : ℕ) → days_in_month y m ≤ 31
unfolding days_in_month
days_in_month_le y m = ground arith

-- The date of a `DateTime` that is made, where the casts lose nothing.
made :
    (is_date_time : DateTime → Bool) (secs : ℕ) (dt : DateTime)
    → (days_to_ymd (secs / 86400)).0 < 65536
    → epoch_to_datetime is_date_time secs ≡ ok dt
    → dt ≡ record {
      year = (days_to_ymd (secs / 86400)).0;
      month = (days_to_ymd (secs / 86400)).1;
      day = (days_to_ymd (secs / 86400)).2;
      hour = secs % 86400 / 3600;
      minutes = secs % 86400 % 3600 / 60;
      seconds = secs % 86400 % 60;
    }
unfolding epoch_to_datetime
made is_date_time secs dt fits h =
    let i = days_to_ymd-IsDate (secs / 86400) in
    let small = days_in_month_le (days_to_ymd (secs / 86400)).0 (days_to_ymd (secs / 86400)).1 in
    ground arith

-- A `DateTime` that is made from seconds stands for these seconds, if the year fits the u16 that it is cast
-- to.
pub datetime_to_epoch-epoch_to_datetime :
    (is_date_time : DateTime → Bool) (secs : ℕ) (dt : DateTime)
    → (days_to_ymd (secs / 86400)).0 < 65536
    → epoch_to_datetime is_date_time secs ≡ ok dt
    → datetime_to_epoch dt ≡ secs
unfolding datetime_to_epoch
datetime_to_epoch-epoch_to_datetime is_date_time secs dt fits h =
    let (same, after) = days_of-days_to_ymd (secs / 86400) in
    ap datetime_to_epoch (made is_date_time secs dt fits h) ∙ omega (arith, same)
