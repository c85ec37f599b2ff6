-- ===== src/Server/Date.antt =====
-- days_to_ymd of crates/hoike-server/src/handlers.rs: the date of a day that is counted from 1970-01-01.
-- `days + 719468` does not overflow, since the days are those of a u64 of seconds.
pub mod Calendar
use hoike.Base.{ℕ, ◌+◌, ◌-◌, ◌*◌, ◌/◌, if◌then◌else◌, ltb, leb}

unfoldable pub year_of_era : ℕ → ℕ
year_of_era doe = (doe - doe / 1460 + doe / 36524 - doe / 146096) / 365

unfoldable pub day_of_year : ℕ → ℕ
unfolding year_of_era
day_of_year doe = let yoe = year_of_era doe in doe - (365 * yoe + yoe / 4 - yoe / 100)

unfoldable pub days_to_ymd : ℕ → ℕ × ℕ × ℕ
unfolding year_of_era day_of_year
days_to_ymd days =
    let z = days + 719468 in
    let era = z / 146097 in
    let doe = z - era * 146097 in
    let y = year_of_era doe + era * 400 in
    let doy = day_of_year doe in
    let mp = (5 * doy + 2) / 153 in
    let d = doy - (153 * mp + 2) / 5 + 1 in
    let m = if ltb mp 10 then mp + 3 else mp - 9 in (if leb m 2 then y + 1 else y, m, d)
