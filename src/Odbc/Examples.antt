-- ===== src/Odbc/Examples.antt =====
-- A small driver manager to run the ODBC driver on. Tests and examples.
mod Readings
mod Clients
use dbabstract.Prelude.{
  ℕ, zero, suc, ◌^◌, ◌+◌, ◌*◌, ◌≤◌, ◌≡◌, refl, Bool, true, false, [], ◌∷◌, Bytes, codes, none, some,
  arith, ◌==◌, if◌then◌else◌, length, ltb, ◌⊎◌,
}
use dbabstract.Prelude.Int.{pos, ℤ, ◌-ℤ◌}
use dbabstract.Effects.{ok, exited, undefined}
use dbabstract.Effects.Post.{Returns}
use dbabstract.C.Memory.{c_string}
use dbabstract.Db.{Target}
use dbabstract.Sql.{literal}
use dbabstract.Odbc.{
  Api, World, start, success, no_data, failed, is_success, HandleKind, env, dbc, stmt, Diagnostic,
  alloc_handle, driver_connect, set_env_attr, more_results, get_data, get_diag_rec, fetch,
  list_tables, close_cursor,
}
use dbabstract.Odbc.Errors.{OdbcConnection, odbc_errors, read_all, read_diagnostics}
use dbabstract.C.Str.{str_eq}
use dbabstract.Odbc.ResultSet.{
  OdbcResultSet, new_result_set, next, get_string, find_column, advance, next_result,
}
use dbabstract.Odbc.Connection.{
  tables, open_database, open_connection, connect, close, escape_block, errorno,
}
use dbabstract.Odbc.Cursor.{count_rows, count_rows-one, get_string_stale}
use dbabstract.Odbc.Tables.{read_rows, tables-column_one}
use dbabstract.Odbc.ResultSet
use dbabstract.Odbc.Draining.{passed, close-ends}
use dbabstract.C.Time.{calendar, format_time, gmtime}
use dbabstract.Convert.{Machine}
use dbabstract.Convert.RoundTrip.{HasFourDigitYear}
use dbabstract.Db.Getters.{get_unix_time-format}
use dbabstract.Odbc.Driver.{odbc_result_set, odbc-ConvertsText}
use dbabstract.Odbc.Columns.{find_column-IsFirst, IsFirst}
use dbabstract.Odbc.Escape.{escape_block-literal}
use dbabstract.Odbc.Overflow.{escape_block_overflows}
use dbabstract.Odbc.Handles.{blank, IsAccounted}
use dbabstract.Odbc.Accounts.{open-close}
use dbabstract.Odbc.Diagnostics.{errorno-zero}
use dbabstract.Odbc.Records.{Records}

abbrev column : ℕ → Bytes
column j = if j == 1 then codes "id" else codes "name"

abbrev kind_address : HandleKind → ℕ
kind_address env = 11
kind_address dbc = 12
kind_address stmt = 13

abbrev no_record : Diagnostic
no_record = record { status = failed; sqlstate = []; native_error = pos 0; message = [] }

abbrev lost : Diagnostic
lost = record {
  status = success;
  sqlstate = codes "08001";
  native_error = pos 7;
  message = codes "no route";
}

-- A driver manager that connects to no database but "db".
abbrev pub toy : Api
toy = record {
  on_alloc_handle = λ log kind parent. (success, kind_address kind);
  on_driver_connect = λ log h source. if length source == 2 then success else failed;
  on_prepare = λ log h sql. success;
  on_execute = λ log h. success;
  on_more_results = λ log h. no_data;
  on_fetch_scroll = λ log h. success;
  on_fetch = λ log h. no_data;
  on_get_data = λ log h i. (success, some (codes "x"));
  on_tables = λ log h. success;
  on_get_diag_rec = λ log kind h i. if i == 1 then lost else no_record;
  row_count = λ log h. pos 3;
  num_result_cols = λ h. (success, 2);
  describe_col = λ h j. (success, column j);
  garbage = λ log i. 88;
}

abbrev pub elsewhere : Target
elsewhere = record { database = codes "nodb"; host = none; port = 0; user = none; pass = none }

-- What `open` answers here, and the world behind it: the connect failed, and one record was read.
abbrev refused_object : OdbcConnection
refused_object = record { henv = 11; hdbc = 12; hstmt = 0; connected = false }

abbrev refused_world : World
refused_world = record start {
  log =
      get_diag_rec env 11 2 no_record
      ∷ get_diag_rec env 11 1 lost
      ∷ get_diag_rec dbc 12 2 no_record
      ∷ get_diag_rec dbc 12 1 lost
      ∷ driver_connect 12 (codes "nodb") failed
      ∷ alloc_handle dbc 11 (success, 12)
      ∷ set_env_attr 11
      ∷ alloc_handle env 0 (success, 11)
      ∷ [];
}

open_refused : open_database toy elsewhere blank start ≡ ok ((false, refused_object), refused_world)
unfolding open_database open_connection connect odbc_errors read_all read_diagnostics str_eq
open_refused = refl

refused_then_closed :
    (open_database toy elsewhere blank start ≡ exited)
    ⊎ ((opened : Bool × OdbcConnection) × (w1 : World) × (open_database toy elsewhere blank start
          ≡ ok (opened, w1))
        × ((w2 : World) × (close opened.1 w1 ≡ ok ((true, blank), w2)) × IsAccounted blank w2))
refused_then_closed = open-close toy elsewhere start (omega arith) (omega arith)

count_rows-one_example :
    Returns
      (λ n w'. n ≡ (if is_success success then 1 else 0))
      (count_rows toy 5 (new_result_set 13) start)
count_rows-one_example = count_rows-one toy 13 3 start (λ log. refl)

-- Column 1 of the first row has been fetched, and then `next` has moved on.
abbrev first_read : World
first_read = record {
  log = get_data 13 1 (success, some (codes "x")) ∷ [];
  index = 1;
  fetch_buffer = codes "x";
}

abbrev moved_on : World
moved_on = record first_read { log = more_results 13 no_data ∷ first_read.log }

abbrev at_row : OdbcResultSet
at_row = record { hstmt = 13; record_ = 1 }

read_once : get_string toy 1 at_row start ≡ ok (some (codes "x"), first_read)
unfolding get_string
read_once = refl

moves_on : next toy at_row first_read ≡ ok ((false, at_row), moved_on)
unfolding next advance next_result
moves_on = refl

get_string_stale_example :
    get_string toy 1 (new_result_set 14) moved_on ≡ ok (some (codes "x"), moved_on)
get_string_stale_example =
    get_string_stale toy 1 at_row (new_result_set 14) at_row start first_read moved_on
      (some (codes "x")) false read_once moves_on

find_column-IsFirst_example :
    (r : ℕ) × (find_column toy (codes "name") (new_result_set 13) start ≡ ok (r, start))
    × IsFirst toy 13 (codes "name") column 1 3 r
find_column-IsFirst_example =
    find_column-IsFirst toy (codes "name") (new_result_set 13) 2 column start refl (λ j lo hi. refl)

escape_block-literal_example :
    (buf : Bytes) × (escape_block (λ i. 88) (codes "it's") ≡ ok buf)
    × (length buf ≡ length (codes "it's") * 2 + 4)
    × (c_string buf ≡ ok (literal (codes "it's")))
escape_block-literal_example =
    escape_block-literal (λ i. 88) (codes "it's") (omega arith) (omega arith)

many : ℕ → Bytes
many zero = []
many (suc n) = b'a' ∷ many n

length-many : (n : ℕ) → n ≤ length (literal (many n))
unfolding many
length-many zero = omega arith
length-many (suc n) = omega (arith, length-many n)

escape_block_overflows_example : escape_block (λ i. 88) (many (2 ^ 31)) ≡ undefined
escape_block_overflows_example =
    escape_block_overflows (λ i. 88) (many (2 ^ 31)) (length-many (2 ^ 31))

error_forgotten : (w' : World) × (errorno toy refused_object start ≡ ok (0, w'))
error_forgotten = errorno-zero toy (λ log kind h. refl) refused_object start
