-- ===== src/Sign/Time.antt =====
-- The times of crates/hoike-sign/src/generate.rs: Unix seconds and the der crate's `DateTime`, whose
-- constructor is a parameter that accepts or refuses the fields. Its days_to_ymd is, word for word, the one
-- that Server/Date models.
pub mod RoundTrip
use hoike.Base.{
  ℕ, zero, suc, ◌+◌, ◌-◌, ◌*◌, ◌/◌, ◌%◌, ◌^◌, List, [], ◌∷◌, Bool, not, ◌&&◌, ◌||◌, none, some, ok,
  err, ◌==◌, get_elem?, if◌then◌else◌,
}
use hoike.Server.Date.{days_to_ymd}
use hoike.Sign.Error.{SignResult, der}

pub record DateTime : Type 0 where
  pub year : ℕ
  pub month : ℕ
  pub day : ℕ
  pub hour : ℕ
  pub minutes : ℕ
  pub seconds : ℕ

abbrev pub is_long : ℕ → Bool
is_long y = y % 4 == 0 && (not (y % 100 == 0) || y % 400 == 0)

-- `for y in 1970..year`, as the number of rounds.
unfoldable pub days_of_years : ℕ → ℕ
days_of_years zero = 0
days_of_years (suc n) = days_of_years n + (if is_long (1970 + n) then 366 else 365)

abbrev mdays : List ℕ
mdays = 0 ∷ 31 ∷ 28 ∷ 31 ∷ 30 ∷ 31 ∷ 30 ∷ 31 ∷ 31 ∷ 30 ∷ 31 ∷ 30 ∷ 31 ∷ []

-- A `DateTime` has at most twelve months, so the index is in range.
abbrev pub month_length : ℕ → ℕ → ℕ
month_length year m =
    elim (get_elem? mdays m) [ none ↦ 0 | some n ↦ n ] + (if m == 2 && is_long year then 1 else 0)

-- `for m in 1..month`
unfoldable pub days_of_months : ℕ → ℕ → ℕ
days_of_months year zero = 0
days_of_months year (suc n) = days_of_months year n + month_length year (suc n)

unfoldable pub datetime_to_epoch : DateTime → ℕ
unfolding days_of_years days_of_months
datetime_to_epoch dt =
    let days =
      days_of_years (dt.year - 1970) + days_of_months dt.year (dt.month - 1) + (dt.day - 1) in
    days * 86400 + dt.hour * 3600 + dt.minutes * 60 + dt.seconds

abbrev pub as_u8 : ℕ → ℕ
as_u8 n = n % 2 ^ 8

abbrev pub as_u16 : ℕ → ℕ
as_u16 n = n % 2 ^ 16

module _ (is_date_time : DateTime → Bool) where
  unfoldable pub epoch_to_datetime : ℕ → SignResult DateTime
  epoch_to_datetime secs =
      let time_of_day = secs % 86400 in
      let date = days_to_ymd (secs / 86400) in
      let dt : DateTime = record {
        year = as_u16 date.0;
        month = as_u8 date.1;
        day = as_u8 date.2;
        hour = as_u8 (time_of_day / 3600);
        minutes = as_u8 (time_of_day % 3600 / 60);
        seconds = as_u8 (time_of_day % 60);
      } in
      if is_date_time dt then ok dt else err der

  -- An `OcspGeneralizedTime` is a `DateTime`.
  unfoldable pub ocsp_time : ℕ → SignResult DateTime
  unfolding epoch_to_datetime
  ocsp_time epoch_secs = epoch_to_datetime epoch_secs
