-- ===== src/Convert/Literal.antt =====
-- The block of `unixtimeToSql` (dbabstract/*/*_db.cpp): the digits of its text, field by field.
use dbabstract.Prelude.{ℕ, suc, ◌+◌, ◌/◌, ◌%◌, ◌<◌, ◌≤◌, ◌≡◌, [], ◌∷◌, ◌++◌, Bytes, arith}
use dbabstract.Prelude.Int.{ℤ, pos, ◌+ℤ◌, ◌-ℤ◌, int_laws}
use dbabstract.Effects.{ok, and_then}
use dbabstract.C.Memory.{write, write_all, new_char, c_string, c_string-append}
use dbabstract.C.Time.{Tm, gmtime, strftime, decimal, year_text, two_digits, format_time}
use dbabstract.Convert.{quote, time_literal, store_text}

-- A four-digit year, and the other fields as numbers in the ranges that `gmtime_r` gives.
pub record Fields : Type 0 where
  pub year : ℕ
  pub month : ℕ
  pub day : ℕ
  pub hour : ℕ
  pub minute : ℕ
  pub second : ℕ

pub record InRange (f : Fields) : Type 0 where
  pub year_from : 1000 ≤ f.year
  pub year_to : f.year ≤ 9999
  pub month_to : f.month ≤ 11
  pub day_to : f.day ≤ 98
  pub hour_to : f.hour ≤ 99
  pub minute_to : f.minute ≤ 99
  pub second_to : f.second ≤ 99

-- `f.month` and `f.day` count from 0 here.
abbrev pub broken_down : Fields → Tm
broken_down f = record {
  tm_year = pos f.year -ℤ pos 1900;
  tm_mon = pos f.month;
  tm_mday = pos (f.day + 1);
  tm_hour = pos f.hour;
  tm_min = pos f.minute;
  tm_sec = pos f.second;
}

abbrev pub tens : ℕ → ℕ
tens n = b'0' + n / 10

abbrev pub units : ℕ → ℕ
units n = b'0' + n % 10

-- `YYYY-MM-DD hh:mm:ss`
abbrev pub dashed : Fields → Bytes
dashed f =
    (b'0' + f.year / 1000)
    ∷ (b'0' + f.year / 100 % 10)
    ∷ (b'0' + f.year / 10 % 10)
    ∷ (b'0' + f.year % 10)
    ∷ b'-'
    ∷ tens (f.month + 1)
    ∷ units (f.month + 1)
    ∷ b'-'
    ∷ tens (f.day + 1)
    ∷ units (f.day + 1)
    ∷ b' '
    ∷ tens f.hour
    ∷ units f.hour
    ∷ b':'
    ∷ tens f.minute
    ∷ units f.minute
    ∷ b':'
    ∷ tens f.second
    ∷ units f.second
    ∷ []

-- `YYYYMMDDhhmmss`, the older form.
abbrev pub compact : Fields → Bytes
compact f =
    (b'0' + f.year / 1000)
    ∷ (b'0' + f.year / 100 % 10)
    ∷ (b'0' + f.year / 10 % 10)
    ∷ (b'0' + f.year % 10)
    ∷ tens (f.month + 1)
    ∷ units (f.month + 1)
    ∷ tens (f.day + 1)
    ∷ units (f.day + 1)
    ∷ tens f.hour
    ∷ units f.hour
    ∷ tens f.minute
    ∷ units f.minute
    ∷ tens f.second
    ∷ units f.second
    ∷ []

decimal_last : (left n : ℕ) → n < 10 → decimal (suc left) n ≡ (b'0' + n) ∷ []
unfolding decimal
decimal_last left n h = ground arith

decimal_more :
    (left n : ℕ) → 10 ≤ n → decimal (suc left) n ≡ decimal left (n / 10) ++ ((b'0' + n % 10) ∷ [])
unfolding decimal
decimal_more left n h = ground arith

pub decimal-four :
    (n : ℕ)
    → 1000 ≤ n
    → n ≤ 9999
    → decimal 11 n
      ≡ (b'0' + n / 1000) ∷ (b'0' + n / 100 % 10) ∷ (b'0' + n / 10 % 10) ∷ (b'0' + n % 10) ∷ []
decimal-four n lo hi =
    let thousands : n / 10 / 10 / 10 ≡ n / 1000 = omega arith in
    let hundreds : n / 10 / 10 ≡ n / 100 = omega arith in
    rw (
      decimal_more 10 n (omega arith),
      decimal_more 9 (n / 10) (omega arith),
      decimal_more 8 (n / 10 / 10) (omega arith),
      decimal_last 7 (n / 10 / 10 / 10) (omega arith),
      thousands,
      hundreds,
    )

year_back : (y : ℕ) → pos y -ℤ pos 1900 +ℤ pos 1900 ≡ pos y
year_back y = omega int_laws

add_pos : (m n : ℕ) → pos m +ℤ pos n ≡ pos (m + n)
add_pos m n = omega int_laws

-- With a four-digit year the text has the nineteen bytes of `YYYY-MM-DD hh:mm:ss`.
pub format_time-dashed : (f : Fields) → InRange f → format_time (broken_down f) ≡ dashed f
unfolding format_time two_digits year_text
format_time-dashed f r =
    rw (year_back f.year, decimal-four f.year r.year_from r.year_to, add_pos f.month 1)

-- The block of a four-digit year, to the last byte.
pub time_literal-block :
    (garbage : ℕ → ℕ) (t : ℤ) (f : Fields)
    → InRange f
    → gmtime t ≡ broken_down f
    → time_literal garbage t ≡ ok (quote ∷ (dashed f ++ (quote ∷ 0 ∷ [])))
unfolding time_literal store_text strftime write write_all new_char
time_literal-block garbage t f r e = rw (e, format_time-dashed f r)

pub time_literal-text :
    (garbage : ℕ → ℕ) (t : ℤ) (f : Fields)
    → InRange f
    → gmtime t ≡ broken_down f
    → and_then (time_literal garbage t) c_string ≡ ok (quote ∷ (dashed f ++ (quote ∷ [])))
time_literal-text garbage t f r e =
    rw (time_literal-block garbage t f r e)
      (c_string-append (quote ∷ (dashed f ++ (quote ∷ []))) [] (omega arith))
