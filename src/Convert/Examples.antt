-- ===== src/Convert/Examples.antt =====
-- The conversions at concrete texts and times. Tests and examples.
use dbabstract.Prelude.{
  ℕ, ◌+◌, ◌≤◌, ◌≡◌, ◌↔◌, ◌⊎◌, true, length, refl, [], ◌∷◌, ◌++◌, Bytes, codes, Option, some, none,
  ◌==◌, if◌then◌else◌, arith,
}
use dbabstract.Prelude.Int.{ℤ, pos, negsuc, ◌-ℤ◌}
use dbabstract.Effects.{ok, undefined}
use dbabstract.C.Memory.{c_string, write, new_char, write_all}
use dbabstract.C.Str.{contains_char, byte_at, char_value}
use dbabstract.C.Time.{calendar, mktime}
use dbabstract.Convert.{
  quote, parse_unix_time, time_literal, find_column_from, store_text, read_fields, year_at, digit,
  pair, positions,
}
use dbabstract.Convert.Literal.{Fields, InRange, compact, dashed, broken_down}
use dbabstract.Convert.RoundTrip.{utc_year, HasFourDigitYear, unixtime-round_trip}
use dbabstract.Convert.Bounds.{parse_undefined_iff}
use dbabstract.Convert.Years.{time_literal-unclosed}
use dbabstract.Sql.{read_literal}
use dbabstract.Convert.Reading.{parse_forms_agree}
use dbabstract.Convert.Columns.{IsFirstColumn, find_column-IsFirstColumn}

-- 2014-11-02 22:00:31 UTC
abbrev sunday : ℤ
sunday = pos 1414965631

-- An hour east of Greenwich.
abbrev berlin : ℤ → ℤ
berlin t = pos 3600

sunday_literal : time_literal (λ i. 88) sunday ≡ ok (codes "'2014-11-02 22:00:31'" ++ (0 ∷ []))
unfolding calendar time_literal write new_char store_text write_all
sunday_literal = refl

sunday_read : parse_unix_time berlin (some (codes "2014-11-02 23:00:31")) ≡ ok sunday
unfolding calendar parse_unix_time read_fields year_at digit byte_at pair positions contains_char
    char_value
sunday_read = refl

sunday-HasFourDigitYear : HasFourDigitYear sunday
unfolding calendar
sunday-HasFourDigitYear = record {
  year = 2014;
  year_is = refl;
  year_from = omega arith;
  year_to = omega arith;
}

unixtime-round_trip_example :
    (block text : Bytes) × (time_literal (λ i. 88) sunday ≡ ok block)
    × (c_string block ≡ ok (quote ∷ (text ++ (quote ∷ []))))
    × (parse_unix_time berlin (some text) ≡ ok (sunday -ℤ pos 3600))
unixtime-round_trip_example = unixtime-round_trip sunday sunday-HasFourDigitYear (λ i. 88) berlin

parse_undefined_iff_example :
    ((parse_unix_time berlin (some (codes "2014-11-02 22:0")) ≡ undefined) ↔ (
      (contains_char (codes "2014-11-02 22:0") b'-' ≡ true)
      × (14 ≤ length (codes "2014-11-02 22:0"))
      × (length (codes "2014-11-02 22:0") ≤ 17)))
    × ((parse_unix_time berlin (some (codes "2014-11-02 22:0")) ≡ undefined)
        ⊎ ((t : ℤ) × (parse_unix_time berlin (some (codes "2014-11-02 22:0")) ≡ ok t)))
parse_undefined_iff_example = parse_undefined_iff berlin (codes "2014-11-02 22:0")

abbrev november : Fields
november = record { year = 2014; month = 10; day = 1; hour = 22; minute = 0; second = 31 }

november-InRange : InRange november
november-InRange = omega arith

parse_forms_agree_example :
    (parse_unix_time berlin (some (dashed november))
      ≡ parse_unix_time berlin (some (compact november)))
    × (parse_unix_time berlin (some (compact november)) ≡ ok (mktime berlin (broken_down november)))
parse_forms_agree_example = parse_forms_agree november november-InRange berlin

abbrev columns : ℕ → Option Bytes
columns j = some (if j == 0 then codes "id" else codes "name")

find_column-IsFirstColumn_example :
    (r : ℕ) × (find_column_from columns (codes "name") 3 0 ≡ ok r)
    × IsFirstColumn columns (codes "name") 0 (0 + 3) r
find_column-IsFirstColumn_example =
    find_column-IsFirstColumn columns (codes "name") 3 0
      λ j h. (if j == 0 then codes "id" else codes "name", refl)

-- The last second of the year 999, and the first of the year 10000.
abbrev early : ℤ
early = negsuc 30610224000

abbrev late : ℤ
late = pos 253402300800

early_year : utc_year early ≡ pos 999
unfolding calendar
early_year = refl

time_literal-unclosed_example :
    (block text : Bytes) × (time_literal (λ i. 88) early ≡ ok block)
    × (c_string block ≡ ok (quote ∷ text))
    × (read_literal ((quote ∷ text) ++ codes ")") ≡ none)
time_literal-unclosed_example =
    time_literal-unclosed (λ i. 88) early 999 (codes ")") early_year (omega arith) (omega arith)

early_literal :
    time_literal (λ i. 88) early ≡ ok (codes "'999-12-31 23:59:59" ++ (0 ∷ quote ∷ 0 ∷ []))
unfolding calendar time_literal write new_char store_text write_all
early_literal = refl
