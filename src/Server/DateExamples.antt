-- ===== src/Server/DateExamples.antt =====
-- The theorems on the dates of crates/hoike-server at concrete days.
use hoike.Base.{◌≡◌, refl}
use hoike.Server.Date.{days_to_ymd}
use hoike.Server.Date.Calendar.{date_after, days_to_ymd-date_after}

-- A leap day.
leap_day_2024 : days_to_ymd 19782 ≡ (2024, 2, 29)
unfolding days_to_ymd
leap_day_2024 = refl

days_to_ymd-date_after_example : days_to_ymd 789 ≡ date_after 789
days_to_ymd-date_after_example = days_to_ymd-date_after 789
