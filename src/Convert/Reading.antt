-- ===== src/Convert/Reading.antt =====
-- The two forms of time that `getUnixTime` reads (dbabstract/*/*_db.cpp).
use dbabstract.Prelude.{ℕ, ◌+◌, ◌/◌, ◌%◌, ◌≤◌, ◌≡◌, ◌∙◌, sym, ap, true, false, some, ◌==◌, arith}
use dbabstract.Prelude.Int.{ℤ, pos, ◌+ℤ◌, ◌-ℤ◌, ◌*ℤ◌, int_laws}
use dbabstract.Effects.{Result, ok, map_result}
use dbabstract.C.Str.{byte_at, contains_char, char_value}
use dbabstract.C.Time.{Tm, mktime}
use dbabstract.Convert.{digit, pair, year_at, positions, read_fields, parse_unix_time}
use dbabstract.Convert.Literal.{Fields, InRange, broken_down, dashed, compact}

digit_value : (k : ℕ) → k ≤ 9 → char_value (b'0' + k) -ℤ pos b'0' ≡ pos k
unfolding char_value ◌-ℤ◌
digit_value k h = ground arith

two_value : (n : ℕ) → n ≤ 99 → pos (n / 10) *ℤ 10 +ℤ pos (n % 10) ≡ pos n
two_value n h = omega int_laws

year_value :
    (y : ℕ)
    → y ≤ 9999
    → pos (y / 1000) *ℤ 1000
        +ℤ pos (y / 100 % 10) *ℤ 100
        +ℤ pos (y / 10 % 10) *ℤ 10
        +ℤ pos (y % 10)
        -ℤ pos 1900
      ≡ pos y -ℤ pos 1900
year_value y h = omega int_laws

month_value : (m : ℕ) → pos (m + 1) -ℤ pos 1 ≡ pos m
month_value m = omega int_laws

digit_not_dash : (k : ℕ) → ((b'0' + k) == b'-') ≡ false
digit_not_dash k = ground arith

module _ (f : Fields) (r : InRange f) where
  open f use {year, month, day, hour, minute, second}

  dash_found : contains_char (dashed f) b'-' ≡ true
  unfolding contains_char
  dash_found = ground arith

  dash_missing : contains_char (compact f) b'-' ≡ false
  unfolding contains_char
  dash_missing = simp digit_not_dash

  -- The fields of a time from its fourteen digits.
  of_digits : Result Tm
  of_digits = ok (record {
    tm_year =
        pos (year / 1000) *ℤ 1000
        +ℤ pos (year / 100 % 10) *ℤ 100
        +ℤ pos (year / 10 % 10) *ℤ 10
        +ℤ pos (year % 10)
        -ℤ pos 1900;
    tm_mon = pos ((month + 1) / 10) *ℤ 10 +ℤ pos ((month + 1) % 10) -ℤ pos 1;
    tm_mday = pos ((day + 1) / 10) *ℤ 10 +ℤ pos ((day + 1) % 10);
    tm_hour = pos (hour / 10) *ℤ 10 +ℤ pos (hour % 10);
    tm_min = pos (minute / 10) *ℤ 10 +ℤ pos (minute % 10);
    tm_sec = pos (second / 10) *ℤ 10 +ℤ pos (second % 10);
  })

  of_digits_lem : of_digits ≡ ok (broken_down f)
  unfolding of_digits
  of_digits_lem = rw (
    year_value year (omega arith),
    two_value (month + 1) (omega arith),
    month_value month,
    two_value (day + 1) (omega arith),
    two_value hour (omega arith),
    two_value minute (omega arith),
    two_value second (omega arith),
  )

  -- The form with hyphens is read back into the fields that it spells.
  pub read-dashed : read_fields (dashed f) (positions (dashed f)) ≡ ok (broken_down f)
  unfolding read_fields year_at pair digit byte_at positions of_digits
  read-dashed =
      rw
        (
          dash_found,
          digit_value (year / 1000) (omega arith),
          digit_value (year / 100 % 10) (omega arith),
          digit_value (year / 10 % 10) (omega arith),
          digit_value (year % 10) (omega arith),
          digit_value ((month + 1) / 10) (omega arith),
          digit_value ((month + 1) % 10) (omega arith),
          digit_value ((day + 1) / 10) (omega arith),
          digit_value ((day + 1) % 10) (omega arith),
          digit_value (hour / 10) (omega arith),
          digit_value (hour % 10) (omega arith),
          digit_value (minute / 10) (omega arith),
          digit_value (minute % 10) (omega arith),
          digit_value (second / 10) (omega arith),
          digit_value (second % 10) (omega arith),
        )
        of_digits_lem

  -- So is the form without.
  pub read-compact : read_fields (compact f) (positions (compact f)) ≡ ok (broken_down f)
  unfolding read_fields year_at pair digit byte_at positions of_digits
  read-compact =
      rw
        (
          dash_missing,
          digit_value (year / 1000) (omega arith),
          digit_value (year / 100 % 10) (omega arith),
          digit_value (year / 10 % 10) (omega arith),
          digit_value (year % 10) (omega arith),
          digit_value ((month + 1) / 10) (omega arith),
          digit_value ((month + 1) % 10) (omega arith),
          digit_value ((day + 1) / 10) (omega arith),
          digit_value ((day + 1) % 10) (omega arith),
          digit_value (hour / 10) (omega arith),
          digit_value (hour % 10) (omega arith),
          digit_value (minute / 10) (omega arith),
          digit_value (minute % 10) (omega arith),
          digit_value (second / 10) (omega arith),
          digit_value (second % 10) (omega arith),
        )
        of_digits_lem

  pub parse-dashed :
      (zone : ℤ → ℤ) → parse_unix_time zone (some (dashed f)) ≡ ok (mktime zone (broken_down f))
  unfolding parse_unix_time
  parse-dashed zone = ap (map_result (mktime zone)) read-dashed

  -- For fields in their ranges and a year of four digits, `getUnixTime` reads the fourteen
  -- digits of the form without hyphens back into the time that `mktime` makes of the fields.
  pub parse-compact :
      (zone : ℤ → ℤ) → parse_unix_time zone (some (compact f)) ≡ ok (mktime zone (broken_down f))
  unfolding parse_unix_time
  parse-compact zone = ap (map_result (mktime zone)) read-compact

  -- For fields in their ranges and a year of four digits, `getUnixTime` reads the form with
  -- hyphens and the fourteen digits of the form without into one time, that which `mktime`
  -- makes of the fields.
  pub parse_forms_agree :
      (zone : ℤ → ℤ)
      → (parse_unix_time zone (some (dashed f)) ≡ parse_unix_time zone (some (compact f)))
        × (parse_unix_time zone (some (compact f)) ≡ ok (mktime zone (broken_down f)))
  parse_forms_agree zone = (parse-dashed zone ∙ sym (parse-compact zone), parse-compact zone)
