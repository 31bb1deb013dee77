-- ===== src/Types/Calendar.antt =====
-- Calendar arithmetic: the functions on `Date` of cpp/core/include/volforge/types.hpp. `unsigned` is
-- 32 bits wide, and wraps.
use volforge.Prelude.{
  ℕ, ◌+◌, ◌-◌, ◌*◌, ◌/◌, ◌%◌, ◌^◌, ltb, leb, if◌then◌else◌, ℤ, pos, negsuc, pos_part, ◌+ℤ◌, ◌-ℤ◌,
  ◌*ℤ◌, leb_ℤ, div_ℤ,
}
use volforge.Types.{Date, Timestamp, from_seconds}

abbrev pub rem_ℤ : ℤ → ℕ → ℤ
rem_ℤ a n = a -ℤ div_ℤ a n *ℤ pos n

-- `Date::year`, `Date::month` and `Date::day`.
abbrev pub year : Date → ℤ
year d = div_ℤ d 10000

abbrev pub month : Date → ℤ
month d = rem_ℤ (div_ℤ d 100) 100

abbrev pub day_of_month : Date → ℤ
day_of_month d = rem_ℤ d 100

abbrev pub unsigned_of : ℤ → ℕ
unsigned_of (pos n) = n % 2 ^ 32
unsigned_of (negsuc n) = 2 ^ 32 - 1 - n % 2 ^ 32

-- The day of the year and of the era, in a year that starts in March.
abbrev pub day_of_year : ℕ → ℕ → ℕ
day_of_year m d = ((153 * ((m + 9) % 2 ^ 32 % 12) + 2) / 5 + d + (2 ^ 32 - 1)) % 2 ^ 32

abbrev pub day_of_era : ℕ → ℕ → ℕ
day_of_era yoe doy = (yoe * 365 + yoe / 4 - yoe / 100 + doy) % 2 ^ 32

unfoldable pub days_from_civil : ℤ → ℕ → ℕ → ℤ
days_from_civil y m d =
    let y' = if leb m 2 then y -ℤ pos 1 else y in
    let era = div_ℤ (if leb_ℤ (pos 0) y' then y' else y' -ℤ pos 399) 400 in
    let yoe = unsigned_of (y' -ℤ era *ℤ pos 400) in
    era *ℤ pos 146097 +ℤ pos (day_of_era yoe (day_of_year m d)) -ℤ pos 719468

-- The year of an era and the day of that year, from the day of the era.
abbrev pub year_of_era : ℕ → ℕ
year_of_era doe = (doe - doe / 1460 + doe / 36524 - doe / 146096) / 365

abbrev pub month_of : ℕ → ℕ
month_of mp = if ltb mp 10 then mp + 3 else mp - 9

unfoldable pub date_from_days : ℤ → Date
date_from_days days =
    let z = days +ℤ pos 719468 in
    let era = div_ℤ (if leb_ℤ (pos 0) z then z else z -ℤ pos 146096) 146097 in
    let doe = pos_part (z -ℤ era *ℤ pos 146097) in
    let yoe = year_of_era doe in
    let doy = doe - (365 * yoe + yoe / 4 - yoe / 100) in
    let mp = (5 * doy + 2) / 153 in
    let d = doy - (153 * mp + 2) / 5 + 1 in
    let m = month_of mp in
    let y = pos yoe +ℤ era *ℤ pos 400 in
    let in_year = y +ℤ (if leb m 2 then pos 1 else pos 0) in
    in_year *ℤ pos 10000 +ℤ pos (m * 100) +ℤ pos d

unfoldable pub days_of : Date → ℤ
unfolding days_from_civil
days_of d = days_from_civil (year d) (unsigned_of (month d)) (unsigned_of (day_of_month d))

-- 0 is Sunday.
unfoldable pub weekday_of : Date → ℤ
unfolding days_of
weekday_of d = rem_ℤ (rem_ℤ (days_of d +ℤ pos 4) 7 +ℤ pos 7) 7

unfoldable pub add_days : Date → ℤ → Date
unfolding days_of date_from_days
add_days d n = date_from_days (days_of d +ℤ n)

abbrev pub ist_offset_seconds : ℤ
ist_offset_seconds = pos (5 * 3600 + 30 * 60)

unfoldable pub timestamp_of : Date → ℤ → ℤ → Timestamp
unfolding days_of
timestamp_of d seconds_of_day utc_offset_seconds =
    from_seconds (days_of d *ℤ pos 86400 +ℤ seconds_of_day -ℤ utc_offset_seconds)
