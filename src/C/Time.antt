-- ===== src/C/Time.antt =====
-- `gmtime_r`, `mktime` and `strftime` with "%Y-%m-%d %H:%M:%S", over a 64-bit `time_t`. The calendar
-- is the proleptic Gregorian one. `mktime` asks the local zone, a parameter, how many seconds
-- standard time is ahead of UTC; the drivers set `tm_isdst` to 0.
pub mod Days
pub mod Zone
use dbabstract.Prelude.{
  ℕ, zero, suc, ◌+◌, ◌-◌, ◌*◌, ◌/◌, ◌%◌, Bool, true, false, not, ◌||◌, ◌&&◌, List, [], ◌∷◌, ◌++◌,
  Bytes, ltb, leb, ◌==◌, if◌then◌else◌, Option, some, none, length,
}
use dbabstract.Prelude.Int.{ℤ, pos, negsuc, pos_part, neg_part, ◌+ℤ◌, ◌-ℤ◌, ◌*ℤ◌, div_ℤ, mod_ℤ}

-- `struct tm`, with `tm_year` counted from 1900 and `tm_mon` from 0.
pub record Tm : Type 0 where
  pub tm_year : ℤ
  pub tm_mon : ℤ
  pub tm_mday : ℤ
  pub tm_hour : ℤ
  pub tm_min : ℤ
  pub tm_sec : ℤ

unfoldable pub is_leap : ℕ → Bool
is_leap y = if y % 4 == 0 then (if y % 100 == 0 then y % 400 == 0 else true) else false

unfoldable pub days_in_year : ℕ → ℕ
unfolding is_leap
days_in_year y = if is_leap y then 366 else 365

-- Months from 0.
unfoldable pub days_in_month : ℕ → ℕ → ℕ
unfolding is_leap
days_in_month y m =
    if m == 1
    then (if is_leap y then 29 else 28)
    else if (m == 3) || (m == 5) || (m == 8) || (m == 10)
    then 30
    else 31

-- Days of a year before a month.
unfoldable pub days_before_month : ℕ → ℕ → ℕ
unfolding days_in_month
days_before_month y zero = 0
days_before_month y (suc m) = days_before_month y m + days_in_month y m

-- The days of the years from 0 up to the year, one of the era that starts at year 0.
unfoldable pub days_before_year : ℕ → ℕ
days_before_year zero = 0
days_before_year (suc p) = 365 * p + p / 4 + p / 400 + 366 - p / 100

-- The year that a day falls in, and what is left of the day number.
unfoldable pub find_year : ℕ → ℕ → ℕ → ℕ × ℕ
find_year zero y d = (y, d)
find_year (suc left) y d =
    let later = find_year left (y + 1) (d - days_in_year y) in
    if ltb d (days_in_year y) then (y, d) else later

unfoldable pub find_month : ℕ → ℕ → ℕ → ℕ → ℕ × ℕ
find_month y zero m d = (m, d)
find_month y (suc left) m d =
    let later = find_month y left (m + 1) (d - days_in_month y m) in
    if ltb d (days_in_month y m) then (m, d) else later

-- 400 years have 146097 days, and 719528 days pass from year 0 to 1970.
abbrev pub era_days : ℕ
era_days = 146097

abbrev pub epoch_day : ℕ
epoch_day = 719528

unfoldable pub civil : ℤ → ℕ → Tm
civil era_start_year day =
    let (y, doy) = find_year 399 0 day in
    let (m, d) = find_month y 11 0 doy in
    record {
      tm_year = era_start_year +ℤ pos y -ℤ pos 1900;
      tm_mon = pos m;
      tm_mday = pos (d + 1);
      tm_hour = pos 0;
      tm_min = pos 0;
      tm_sec = pos 0;
    }

-- `gmtime_r`
unfoldable pub gmtime : ℤ → Tm
unfolding civil
gmtime t =
    let z = div_ℤ t 86400 +ℤ pos epoch_day in
    let s = mod_ℤ t 86400 in
    record (civil (div_ℤ z era_days *ℤ 400) (mod_ℤ z era_days)) {
      tm_hour = pos (s / 3600);
      tm_min = pos (s % 3600 / 60);
      tm_sec = pos (s % 60);
    }

-- Seconds since the epoch of broken-down UTC time. Fields out of range carry over.
unfoldable pub timegm : Tm → ℤ
timegm tm =
    let months = (tm.tm_year +ℤ pos 1900) *ℤ 12 +ℤ tm.tm_mon in
    let year = div_ℤ months 12 in
    let month = mod_ℤ months 12 in
    let y = mod_ℤ year 400 in
    let days =
      div_ℤ year 400 *ℤ era_days
      +ℤ pos (days_before_year y + days_before_month y month)
      +ℤ tm.tm_mday
      -ℤ pos (epoch_day + 1) in
    days *ℤ 86400 +ℤ tm.tm_hour *ℤ 3600 +ℤ tm.tm_min *ℤ 60 +ℤ tm.tm_sec

-- `mktime`, in a zone whose standard time is ahead of UTC by `zone` seconds.
unfoldable pub mktime : (ℤ → ℤ) → Tm → ℤ
mktime zone tm = let local = timegm tm in local -ℤ zone local

-- Decimal digits, and at least one.
unfoldable pub decimal : ℕ → ℕ → Bytes
decimal zero n = []
decimal (suc left) n =
    let higher = decimal left (n / 10) in
    if ltb n 10 then (b'0' + n) ∷ [] else higher ++ ((b'0' + n % 10) ∷ [])

unfoldable pub two_digits : ℤ → Bytes
two_digits n = (b'0' + pos_part n / 10) ∷ (b'0' + pos_part n % 10) ∷ []

-- `%Y`: the sign and the digits, with no padding. An `int` year has at most ten digits.
unfoldable pub year_text : ℤ → Bytes
year_text (pos y) = decimal 11 y
year_text (negsuc y) = b'-' ∷ decimal 11 (suc y)

unfoldable pub format_time : Tm → Bytes
format_time tm =
    year_text (tm.tm_year +ℤ pos 1900)
    ++ (b'-'
        ∷ (two_digits (tm.tm_mon +ℤ pos 1)
            ++ (b'-'
                ∷ (two_digits tm.tm_mday
                    ++ (b' '
                        ∷ (two_digits tm.tm_hour
                            ++ (b':'
                                ∷ (two_digits tm.tm_min ++ (b':' ∷ two_digits tm.tm_sec)))))))))

-- `strftime(s, max, …)` stores the text and a NUL if both fit in `max` bytes. If not, it returns 0
-- and the block is indeterminate.
unfoldable pub strftime : ℕ → Tm → Option Bytes
strftime max tm =
    let text = format_time tm in if ltb (length text) max then some (text ++ (0 ∷ [])) else none

-- What a test or an example of the calendar computes with.
unfoldable pub calendar : Unit {0}
unfolding is_leap days_in_year days_in_month days_before_month days_before_year find_year find_month
    civil gmtime timegm mktime decimal two_digits year_text format_time strftime ◌+ℤ◌ ◌-ℤ◌ ◌*ℤ◌
    div_ℤ mod_ℤ
calendar = tt
