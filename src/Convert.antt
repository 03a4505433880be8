-- ===== src/Convert.antt =====
-- What the four drivers write alike (dbabstract/*/*_db.cpp): the conversions of a column's text in
-- `getBool` and `getUnixTime`, the time literal of `unixtimeToSql`, and the loop of `findColumn`.
pub mod Reading
pub mod Literal
pub mod Closing
pub mod Years
pub mod RoundTrip
pub mod Bounds
pub mod Columns
mod Examples
use dbabstract.Prelude.{
  ℕ, zero, suc, ◌+◌, ◌-◌, ◌<◌, ◌≤◌, Bool, true, false, ◌||◌, ◌&&◌, List, [], ◌∷◌, Bytes, Option,
  none, some, ltb, leb, ◌==◌, if◌then◌else◌, length,
}
use dbabstract.Prelude.Int.{ℤ, pos, ◌+ℤ◌, ◌-ℤ◌, ◌*ℤ◌}
use dbabstract.Effects.{Result, ok, undefined, map_result, deref}
use dbabstract.Effects.Checked.{◌>>=◌}
use dbabstract.C.Memory.{write, write_all, new_char}
use dbabstract.C.Str.{byte_at, contains_char, char_value, str_eq}
use dbabstract.C.Time.{Tm, mktime, gmtime, strftime}

abbrev pub quote : ℕ
quote = b'\''

-- `v && (v[0] == '1' || v[0] == 't')`
unfoldable pub text_is_true : Option Bytes → Bool
text_is_true none = false
text_is_true (some []) = false
text_is_true (some (c ∷ v)) = (c == b'1') || (c == b't')

-- `v[i] - '0'`
unfoldable pub digit : Bytes → ℕ → Result ℤ
digit v i = map_result (λ b. char_value b -ℤ pos b'0') (byte_at v i)

-- `(v[i] - '0') * 10 + (v[i+1] - '0')`
unfoldable pub pair : Bytes → ℕ → Result ℤ
pair v i = do a ← digit v i; b ← digit v (i + 1); ok (a *ℤ 10 +ℤ b)

-- Where the fields of a time stand in its text.
pub record Positions : Type 0 where
  pub month_pos : ℕ
  pub day_pos : ℕ
  pub hour_pos : ℕ
  pub minute_pos : ℕ
  pub second_pos : ℕ

unfoldable pub positions : Bytes → Positions
positions v =
    if contains_char v b'-'
    then record { month_pos = 5; day_pos = 8; hour_pos = 11; minute_pos = 14; second_pos = 17 }
    else record { month_pos = 4; day_pos = 6; hour_pos = 8; minute_pos = 10; second_pos = 12 }

unfoldable pub year_at : Bytes → Result ℤ
year_at v = do
  a ← digit v 0
  b ← digit v 1
  c ← digit v 2
  d ← digit v 3
  ok (a *ℤ 1000 +ℤ b *ℤ 100 +ℤ c *ℤ 10 +ℤ d -ℤ pos 1900)

-- The fields that the text is read into.
unfoldable pub read_fields : Bytes → Positions → Result Tm
read_fields v p = do
  year ← year_at v
  month ← pair v p.month_pos
  day ← pair v p.day_pos
  hour ← pair v p.hour_pos
  minute ← pair v p.minute_pos
  second ← pair v p.second_pos
  ok (record {
    tm_year = year;
    tm_mon = month -ℤ pos 1;
    tm_mday = day;
    tm_hour = hour;
    tm_min = minute;
    tm_sec = second;
  })

-- The body of `getUnixTime`, behind the fetch of the column's text.
unfoldable pub parse_unix_time : (ℤ → ℤ) → Option Bytes → Result ℤ
parse_unix_time zone none = ok (pos 0)
parse_unix_time zone (some v) =
    if leb 14 (length v) then map_result (mktime zone) (read_fields v (positions v)) else ok (pos 0)

-- What `strftime` leaves in the `max` bytes of a block from `i` on: the text and its NUL. Where it
-- answers 0 they are indeterminate, and `left` is what they hold.
unfoldable pub store_text : (ℕ → ℕ) → Bytes → ℕ → ℕ → Option Bytes → Result Bytes
store_text left buf i max none = write_all buf i (new_char left max)
store_text left buf i max (some text) = write_all buf i text

-- The body of `unixtimeToSql`: the block that it returns. `garbage` is what the new block holds, and
-- behind its 22 bytes what a `strftime` that answers 0 leaves.
unfoldable pub time_literal : (ℕ → ℕ) → ℤ → Result Bytes
time_literal garbage t = do
  buf ← write (new_char garbage 22) 0 quote
  buf ← store_text (λ i. garbage (22 + i)) buf 1 20 (strftime 20 (gmtime t))
  buf ← write buf 20 quote
  write buf 21 0

-- The loop of `findColumn` with `left` columns to go from column `i` on: the first column of that
-- name, or the number behind the last one. `name` is what the library answers for a column.
unfoldable pub find_column_from : (ℕ → Option Bytes) → Bytes → ℕ → ℕ → Result ℕ
find_column_from name fld zero i = ok i
find_column_from name fld (suc left) i =
    let rest = find_column_from name fld left (i + 1) in
    do field ← deref (name i); if str_eq field fld then ok i else rest

-- Floating-point numbers are not modelled: their types, and what the C library makes of a text, are
-- parameters. So is the local time zone.
pub record Machine (D F : Type 0) : Type 0 where
  pub zone : ℤ → ℤ
  pub strtod : Bytes → D
  pub zero_double : D
  pub atof_float : Bytes → F
  pub zero_float : F

-- `v ? f(v) : 0`
unfoldable pub or_zero : (Bytes → Result ℤ) → Option Bytes → Result ℤ
or_zero f none = ok (pos 0)
or_zero f (some v) = f v

unfoldable pub text_or : {A : Type 0} → (Bytes → A) → A → Option Bytes → A
text_or f zero_value none = zero_value
text_or f zero_value (some v) = f v
