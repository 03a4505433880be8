-- ===== src/Convert/RoundTrip.antt =====
-- `unixtimeToSql` and `getUnixTime`, one behind the other (dbabstract/*/*_db.cpp).
use dbabstract.Prelude.{
  ℕ, ◌+◌, ◌/◌, ◌%◌, ◌<◌, ◌≤◌, ◌≡◌, sym, ap, [], ◌∷◌, ◌++◌, Bytes, some, arith, ◌≡⟨◌⟩◌, ◌∎, ◌∙◌,
}
use dbabstract.Prelude.Int.{ℤ, pos, pos_part, neg_part, ◌+ℤ◌, ◌-ℤ◌, int_laws, mod_ℤ, div_ℤ}
use dbabstract.Prelude.Int.Division.{mod_ℤ-lt}
use dbabstract.Effects.{ok, and_then}
use dbabstract.Effects.Laws.{and_then-eq-ok}
use dbabstract.C.Memory.{c_string}
use dbabstract.C.Time.{
  mktime, gmtime, civil, format_time, find_year, find_month, days_in_month, era_days, epoch_day,
}
use dbabstract.C.Time.Days.{IsYearDay, IsMonthDay, find_year-first, find_month-first}
use dbabstract.C.Time.Zone.{timegm-gmtime}
use dbabstract.Convert.{parse_unix_time, quote, time_literal}
use dbabstract.Convert.Literal.{
  Fields, InRange, broken_down, dashed, format_time-dashed, time_literal-text,
}
use dbabstract.Convert.Reading.{parse-dashed}

abbrev pub utc_year : ℤ → ℤ
utc_year t = (gmtime t).tm_year +ℤ pos 1900

-- The times whose year is written with four digits.
pub record HasFourDigitYear (t : ℤ) : Type 0 where
  pub year : ℕ
  pub year_is : utc_year t ≡ pos year
  pub year_from : 1000 ≤ year
  pub year_to : year ≤ 9999

days_in_month-le : (y m : ℕ) → days_in_month y m ≤ 31
unfolding days_in_month
days_in_month-le y m = ground arith

year_less : (w : ℤ) (y : ℕ) → w +ℤ pos 1900 ≡ pos y → w ≡ pos y -ℤ pos 1900
year_less w y e = omega (int_laws, ap pos_part e, ap neg_part e)

module _ (t : ℤ) (h : HasFourDigitYear t) where
  z : ℤ
  z = div_ℤ t 86400 +ℤ pos epoch_day

  yd : ℕ × ℕ
  yd = find_year 399 0 (mod_ℤ z era_days)

  md : ℕ × ℕ
  md = find_month yd.0 11 0 yd.1

  clock : ℕ
  clock = mod_ℤ t 86400

  pub fields : Fields
  fields = record {
    year = h.year;
    month = md.0;
    day = md.1;
    hour = clock / 3600;
    minute = clock % 3600 / 60;
    second = clock % 60;
  }

  pub gmtime-fields : gmtime t ≡ broken_down fields
  unfolding gmtime civil fields md yd z clock
  gmtime-fields = λ i. record {
    tm_year = year_less (gmtime t).tm_year h.year h.year_is i;
    tm_mon = pos md.0;
    tm_mday = pos (md.1 + 1);
    tm_hour = pos (clock / 3600);
    tm_min = pos (clock % 3600 / 60);
    tm_sec = pos (clock % 60);
  }

  year_day : IsYearDay (mod_ℤ z era_days) yd
  unfolding yd
  year_day = find_year-first (mod_ℤ z era_days) (mod_ℤ-lt z era_days (omega arith))

  month_day : IsMonthDay yd.0 yd.1 md
  unfolding md
  month_day = find_month-first yd.0 yd.1 year_day.in_year

  clock_range : clock < 86400
  unfolding clock
  clock_range = mod_ℤ-lt t 86400 (omega arith)

  pub fields-InRange : InRange fields
  unfolding fields
  fields-InRange = omega (
    arith,
    h.year_from,
    h.year_to,
    month_day.in_year,
    month_day.in_month,
    days_in_month-le yd.0 md.0,
    clock_range,
  )

  -- The literal of a time is a quoted `YYYY-MM-DD hh:mm:ss`.
  pub literal-text :
      (garbage : ℕ → ℕ)
      → and_then (time_literal garbage t) c_string
        ≡ ok (quote ∷ (format_time (gmtime t) ++ (quote ∷ [])))
  literal-text garbage =
      time_literal-text garbage t fields fields-InRange gmtime-fields
      ∙ ap (λ s. ok (quote ∷ (s ++ (quote ∷ []))))
          (sym (ap format_time gmtime-fields ∙ format_time-dashed fields fields-InRange))

  -- The text inside the quotes is read back into the time, less the offset of the local zone.
  pub parse-format :
      (zone : ℤ → ℤ) → parse_unix_time zone (some (format_time (gmtime t))) ≡ ok (t -ℤ zone t)
  unfolding mktime
  parse-format zone =
      parse_unix_time zone (some (format_time (gmtime t)))
      ≡⟨ ap (λ w. parse_unix_time zone (some w))
          (ap format_time gmtime-fields ∙ format_time-dashed fields fields-InRange) ⟩
        parse_unix_time zone (some (dashed fields))
      ≡⟨ parse-dashed fields fields-InRange zone ⟩ ok (mktime zone (broken_down fields))
      ≡⟨ ap (λ w. ok (mktime zone w)) (sym gmtime-fields) ⟩ ok (mktime zone (gmtime t))
      ≡⟨ ap (λ w. ok (w -ℤ zone w)) (timegm-gmtime t) ⟩ ok (t -ℤ zone t) ∎

  -- For a time whose year has four digits, whatever a new block holds: the body of
  -- `unixtimeToSql` returns a block, the C string in it is a text between two quotes, and the
  -- body of `getUnixTime`, given that text, answers the time less the offset of the local zone
  -- at that time.
  pub unixtime-round_trip :
      (garbage : ℕ → ℕ) (zone : ℤ → ℤ)
      → (block text : Bytes) × (time_literal garbage t ≡ ok block)
        × (c_string block ≡ ok (quote ∷ (text ++ (quote ∷ []))))
        × (parse_unix_time zone (some text) ≡ ok (t -ℤ zone t))
  unixtime-round_trip garbage zone =
      let (block, written, read) = and_then-eq-ok _ _ (literal-text garbage) in
      (block, format_time (gmtime t), written, read, parse-format zone)
