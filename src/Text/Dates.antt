-- ===== src/Text/Dates.antt =====
-- The calendar of package `time`: the date of an instant in UTC, and its format `20060102T150405Z`.
use nineteenseventytwo_platf.Prelude.{
  ℕ, ◌+◌, ◌-◌, ◌*◌, ◌/◌, ◌%◌, [], ◌∷◌, ◌++◌, Bytes, ltb, if◌then◌else◌,
}

-- the seconds of an instant, from 0001-01-01T00:00:00Z on
abbrev pub seconds : ℕ → ℕ
seconds t = t / 1000000000

-- Days are counted here from the first of March of the year 0, so that the leap day ends a year; the
-- calendar repeats after 146097 days.
abbrev pub march_days : ℕ → ℕ
march_days t = seconds t / 86400 + 306

abbrev pub day_of_era : ℕ → ℕ
day_of_era t = march_days t % 146097

abbrev pub year_of_era : ℕ → ℕ
year_of_era d = (d - d / 1460 + d / 36524 - d / 146096) / 365

abbrev pub day_of_year : ℕ → ℕ
day_of_year d = d - (365 * year_of_era d + year_of_era d / 4 - year_of_era d / 100)

-- the months from March on
abbrev pub month_index : ℕ → ℕ
month_index d = (5 * day_of_year d + 2) / 153

unfoldable pub month : ℕ → ℕ
month t = let m = month_index (day_of_era t) in if ltb m 10 then m + 3 else m - 9

unfoldable pub day : ℕ → ℕ
day t = let d = day_of_era t in day_of_year d - (153 * month_index d + 2) / 5 + 1

unfoldable pub year : ℕ → ℕ
unfolding month
year t =
    let y = march_days t / 146097 * 400 + year_of_era (day_of_era t) in
    if ltb (month t) 3 then y + 1 else y

abbrev pub digit : ℕ → ℕ
digit n = b'0' + n % 10

abbrev pub two_digits : ℕ → Bytes
two_digits n = digit (n / 10) ∷ digit n ∷ []

-- Years up to 9999 have four digits.
unfoldable pub basic_day : ℕ → Bytes
unfolding year month day
basic_day t =
    two_digits (year t / 100)
    ++ (two_digits (year t) ++ (two_digits (month t) ++ two_digits (day t)))

unfoldable pub basic_time : ℕ → Bytes
unfolding basic_day
basic_time t =
    let s = seconds t in
    basic_day t
    ++ (b'T'
        ∷ (two_digits (s / 3600 % 24)
            ++ (two_digits (s / 60 % 60) ++ (two_digits (s % 60) ++ b'Z' ∷ []))))
