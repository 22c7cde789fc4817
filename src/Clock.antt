-- ===== src/Clock.antt =====
-- time.Time of Go in UTC: nanoseconds since 1970, truncation to the minute, and the two layouts that
-- the rate limiter's keys use. The zone of the process is taken to be UTC.
use Prim.Native.String.{◌++◌}
use chainmesh.Base.{ℕ, ◌+◌, ◌-◌, ◌*◌, ◌/◌, ◌%◌, ◌≡◌, refl, String, ltb, leb, if◌then◌else◌}
use chainmesh.Base.Decimal.{decimal, pad2}

abbrev pub second : ℕ
second = 1000000000

abbrev pub minute : ℕ
minute = 60 * second

abbrev pub day : ℕ
day = 86400 * second

-- now.Unix()
abbrev pub unix : ℕ → ℕ
unix now = now / second

-- now.Truncate(time.Minute)
abbrev pub truncate_minute : ℕ → ℕ
truncate_minute now = now / minute * minute

-- time.Date(now.Year(), now.Month(), now.Day()+1, 0, 0, 0, 0, now.Location())
abbrev pub next_day : ℕ → ℕ
next_day now = (now / day + 1) * day

-- The Gregorian date of a day counted from 1970-01-01, in years that begin in March.
civil_date : ℕ → String
civil_date days =
    let z = days + 719468 in
    let era = z / 146097 in
    let day_of_era = z % 146097 in
    let year_of_era =
      (day_of_era + day_of_era / 36524 - day_of_era / 1460 - day_of_era / 146096) / 365 in
    let day_of_year = day_of_era + year_of_era / 100 - (365 * year_of_era + year_of_era / 4) in
    let m = (5 * day_of_year + 2) / 153 in
    let dom = day_of_year - (153 * m + 2) / 5 + 1 in
    let month = if ltb m 10 then m + 3 else m - 9 in
    let year = year_of_era + era * 400 + (if leb month 2 then 1 else 0) in
    decimal year ++ ("-" ++ (pad2 month ++ ("-" ++ pad2 dom)))

-- now.Format("2006-01-02"), for the years 1970 to 9999
unfoldable pub format_day : ℕ → String
unfolding civil_date decimal pad2
format_day now = civil_date (now / day)

-- now.Format("2006-01-02T15:04")
unfoldable pub format_minute : ℕ → String
unfolding civil_date decimal pad2
format_minute now =
    let m = now / minute in
    civil_date (m / 1440) ++ ("T" ++ (pad2 (m / 60 % 24) ++ (":" ++ pad2 (m % 60))))

minute_runs : format_minute (1709208061 * second) ≡ "2024-02-29T12:01"
unfolding format_minute
minute_runs = refl

day_runs : format_day (1735689599 * second) ≡ "2024-12-31"
unfolding format_day
day_runs = refl
