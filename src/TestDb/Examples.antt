-- ===== src/TestDb/Examples.antt =====
-- The SQLite block of test/test_db.cpp with a small SQLite, in which each query finds one row. Tests and
-- examples.
use dbabstract.Prelude.{
  ℕ, zero, suc, ◌≡◌, ◌<◌, refl, false, [], ◌∷◌, Bytes, codes, Option, some, arith,
}
use dbabstract.Prelude.Int.{ℤ, pos}
use dbabstract.Effects.{Log, ok}
use dbabstract.Effects.Post.{Returns, count}
use dbabstract.C.Num.Decimal.{numeral}
use dbabstract.C.Str.{contains_char, byte_at, char_value}
use dbabstract.C.Time.{calendar}
use dbabstract.Convert.{Machine, parse_unix_time, read_fields, year_at, digit, pair, positions}
use dbabstract.Convert.RoundTrip.{HasFourDigitYear}
use dbabstract.Sql.{literal}
use dbabstract.Sqlite3.{
  Event, Api, sqlite3_prepare, sqlite3_step, sqlite_done, sqlite_row, is_final,
}
use dbabstract.Sqlite3.Connection.{Sqlite3Connection}
use dbabstract.Sqlite3.Loops.{StepsEnd}
use dbabstract.Sqlite3.Clients.{prepares_of, finalizes_of}
use dbabstract.TestDb.{sqlite3_block}
use dbabstract.TestDb.Columns.{HasColumns}
use dbabstract.TestDb.Finalizes.{sqlite3_block-finalizes}

abbrev one_fewer : ℕ → ℕ
one_fewer zero = 0
one_fewer (suc n) = n

-- The rows that are left.
abbrev rows_left : Log Event → ℕ
rows_left [] = 0
rows_left (sqlite3_prepare h sql answer ∷ log) = 1
rows_left (sqlite3_step s rc ∷ log) = one_fewer (rows_left log)
rows_left (_ ∷ log) = rows_left log

abbrev step_code : ℕ → ℕ
step_code zero = sqlite_done
step_code (suc n) = sqlite_row

abbrev noted : Bytes
noted = codes "2014-11-02 22:00:31"

abbrev columns_of : ℕ → Option Bytes
columns_of zero = some (numeral (pos 1))
columns_of (suc zero) = some (codes "joe")
columns_of (suc (suc zero)) = some noted
columns_of _ = some (codes "1.99")

abbrev one_row : Api
one_row = record {
  on_open = λ log name. (0, 7);
  on_close = λ log h. 0;
  on_exec = λ log h sql. (0, 0);
  on_prepare = λ log h sql. (0, 8);
  on_step = λ log s. step_code (rows_left log);
  column_count = λ s. 4;
  column_name = λ s i. some (codes "name");
  on_column_text = λ log s i. columns_of i;
  mprintf_q = λ log s. some (literal s);
  last_insert_rowid = λ log h. pos 1;
  errcode = λ log h. 0;
  errmsg = λ log h. some (codes "not an error");
  libversion = codes "3.8.7";
  garbage = λ log i. 99;
}

abbrev in_utc : Machine ℕ ℕ
in_utc = record {
  zone = λ t. pos 0;
  strtod = λ s. 0;
  zero_double = 0;
  atof_float = λ s. 0;
  zero_float = 0;
}

abbrev outside : Sqlite3Connection
outside = record { db_ = 0 }

abbrev sunday : ℤ
sunday = pos 1414965631

fewer_than_two : (n : ℕ) → n < 2 → one_fewer n < 2
fewer_than_two zero h = omega arith
fewer_than_two (suc n) h = omega arith

few_left : (log : Log Event) → rows_left log < 2
few_left [] = omega arith
few_left (sqlite3_prepare h sql answer ∷ log) = omega arith
few_left (sqlite3_step s rc ∷ log) = fewer_than_two (rows_left log) (few_left log)
few_left (_ ∷ log) = few_left log

step_takes : (n : ℕ) → is_final (step_code n) ≡ false → one_fewer n < n
step_takes zero more = cc
step_takes (suc n) more = omega arith

abbrev one_row-StepsEnd : StepsEnd one_row 2
one_row-StepsEnd = record {
  left = λ log res. rows_left log;
  bounded = λ log res. few_left log;
  fewer = λ log res more. step_takes (rows_left log) more;
  paused = λ log res n. refl;
}

noted_read : parse_unix_time in_utc.zone (some noted) ≡ ok sunday
unfolding calendar parse_unix_time read_fields year_at digit byte_at pair positions contains_char
    char_value
noted_read = refl

one_row-HasColumns : HasColumns one_row in_utc
one_row-HasColumns = record {
  id_at = λ log res. pos 1;
  id_is = λ log res. refl;
  id_fits = λ log res. omega arith;
  data_at = λ log res. codes "joe";
  data_is = λ log res. refl;
  added_at = λ log res. sunday;
  added_is = λ log res. noted_read;
  cost_at = λ log res. codes "1.99";
  cost_is = λ log res. refl;
}

sunday-HasFourDigitYear : HasFourDigitYear sunday
unfolding calendar
sunday-HasFourDigitYear = record {
  year = 2014;
  year_is = refl;
  year_from = omega arith;
  year_to = omega arith;
}

sqlite3_block-finalizes_example :
    Returns
      (λ r log'. count (prepares_of 8) log' ≡ count (finalizes_of 8) log')
      (sqlite3_block in_utc 2 sunday one_row outside [])
sqlite3_block-finalizes_example =
    sqlite3_block-finalizes one_row 2 in_utc one_row-StepsEnd (λ log res i v. refl)
      one_row-HasColumns (λ log s. refl) sunday sunday-HasFourDigitYear 8 (omega arith) outside []
      refl refl
