-- ===== src/Odbc/Examples/Readings.antt =====
-- Tables and times read from the small driver manager. Tests and examples.
use dbabstract.Prelude.{
  ℕ, suc, ◌≡◌, refl, true, List, [], ◌∷◌, Bytes, codes, none, some, arith, if◌then◌else◌, ltb,
}
use dbabstract.Prelude.Int.{pos, ℤ, ◌-ℤ◌}
use dbabstract.Effects.{Log, ok}
use dbabstract.Odbc.{
  Event, Api, World, start, success, no_data, more_results, get_data, fetch, list_tables,
  close_cursor,
}
use dbabstract.Odbc.Errors.{OdbcConnection}
use dbabstract.Odbc.ResultSet.{
  OdbcResultSet, new_result_set, next, get_string, find_column, advance, next_result,
}
use dbabstract.Odbc.Connection.{tables}
use dbabstract.Odbc.Tables.{read_rows, tables-column_one}
use dbabstract.Odbc.ResultSet
use dbabstract.Odbc.Draining.{passed, close-ends}
use dbabstract.C.Time.{calendar, format_time, gmtime}
use dbabstract.Convert.{Machine}
use dbabstract.Convert.RoundTrip.{HasFourDigitYear}
use dbabstract.Db.Getters.{get_unix_time-format}
use dbabstract.Odbc.Driver.{odbc_result_set, odbc-ConvertsText}
use dbabstract.Odbc.Examples.{toy, at_row}

-- Two rows of `SQLTables`, with the name of the catalog in column 1.
abbrev catalogs : List Bytes
catalogs = codes "main" ∷ codes "main" ∷ []

abbrev fetches : Log Event → ℕ
fetches [] = 0
fetches (fetch h sts ∷ log) = suc (fetches log)
fetches (_ ∷ log) = fetches log

abbrev two_rows : Api
two_rows = record toy {
  on_fetch = λ log h. if ltb (fetches log) 2 then success else no_data;
  on_get_data = λ log h i. (success, some (codes "main"));
}

abbrev ready : OdbcConnection
ready = record { henv = 11; hdbc = 12; hstmt = 13; connected = true }

tables-column_one_example :
    tables two_rows 3 ready start
    ≡ ok (
      catalogs,
      record start { log = fetch 13 no_data ∷ read_rows 13 catalogs (list_tables 13 success ∷ []) },
    )
tables-column_one_example =
    tables-column_one two_rows ready catalogs 3 start (omega arith) (refl, refl, (refl, refl, refl))
      (omega arith)

-- A statement with two more result sets.
abbrev mores : Log Event → ℕ
mores [] = 0
mores (more_results h sts ∷ log) = suc (mores log)
mores (_ ∷ log) = mores log

abbrev two_more_sets : Api
two_more_sets = record toy {
  on_more_results = λ log h. if ltb (mores log) 2 then success else no_data;
}

close-ends_example :
    ResultSet.close two_more_sets 4 (record { hstmt = 13; record_ = 1 }) start
    ≡ ok (
      (true, none),
      record start { log = close_cursor 13 ∷ more_results 13 no_data ∷ passed 13 2 [] },
    )
close-ends_example =
    close-ends two_more_sets 13 no_data 2 4 1 start refl (refl, (refl, refl)) (omega arith)

-- 2014-11-02 22:00:31 UTC in column 2, for a client an hour east of Greenwich.
abbrev sunday : ℤ
sunday = pos 1414965631

abbrev at_sunday : Api
at_sunday = record toy { on_get_data = λ log h i. (success, some (codes "2014-11-02 22:00:31")) }

abbrev machine : Machine ℕ ℕ
machine = record {
  zone = λ t. pos 3600;
  strtod = λ s. 0;
  zero_double = 0;
  atof_float = λ s. 0;
  zero_float = 0;
}

abbrev sunday_read : World
sunday_read = record {
  log = get_data 13 2 (success, some (codes "2014-11-02 22:00:31")) ∷ [];
  index = 2;
  fetch_buffer = codes "2014-11-02 22:00:31";
}

sunday_text :
    get_string at_sunday 2 at_row start ≡ ok (some (format_time (gmtime sunday)), sunday_read)
unfolding calendar get_string
sunday_text = refl

sunday-HasFourDigitYear : HasFourDigitYear sunday
unfolding calendar
sunday-HasFourDigitYear = record {
  year = 2014;
  year_is = refl;
  year_from = omega arith;
  year_to = omega arith;
}

sunday_from_column :
    ResultSet.get_unix_time at_sunday machine 2 at_row start ≡ ok (sunday -ℤ pos 3600, sunday_read)
sunday_from_column =
    get_unix_time-format (odbc_result_set at_sunday 1 machine) machine.zone
      (odbc-ConvertsText at_sunday 1 machine) sunday 2 at_row start sunday_read
      sunday-HasFourDigitYear sunday_text
